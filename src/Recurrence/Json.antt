-- ===== src/Recurrence/Json.antt =====
-- JSON values as `serde_json` holds them. A map is the list of its entries, the first one of a key
-- counting, and a number is its text.
pub mod Lookup
use open_community_groups.Prelude.{String, Bool, Option, none, some, if◌then◌else◌, ◌==◌, string_eq}
use open_community_groups.Prelude.Result.{Result, ok, err, ◌>>=◌}
use open_community_groups.Recurrence.Calendar.{Stop}

mutual
  pub data Value : Type 0 where
    null : Value
    bool : Bool → Value
    number : String → Value
    string : String → Value
    array : Items → Value
    object : Fields → Value

  pub data Items : Type 0 where
    nil : Items
    cons : Value → Items → Items

  pub data Fields : Type 0 where
    end : Fields
    field : String → Value → Fields → Fields

-- `Map::get`
unfoldable pub get : String → Fields → Option Value
get k end = none
get k (field j v m) = let rest = get k m in if j == k then some v else rest

-- `Map::insert`; a new key stands last.
unfoldable pub insert : String → Value → Fields → Fields
insert k v end = field k v end
insert k v (field j u m) = let rest = insert k v m in if j == k then field j v m else field j u rest

-- `if let Some(value) = map.get_mut(key) { f(value)? }`
unfoldable pub update : String → (Value → Result Stop Value) → Fields → Result Stop Fields
update k f end = ok end
update k f (field j v m) =
    let here = (do u ← f v; ok (field j u m)) in
    let rest = (do m' ← update k f m; ok (field j v m')) in if j == k then here else rest

-- `for item in array { f(item)? }`
unfoldable pub for_each : (Value → Result Stop Value) → Items → Result Stop Items
for_each f nil = ok nil
for_each f (cons v vs) = do u ← f v; us ← for_each f vs; ok (cons u us)
