-- ===== src/Recurrence/Refresh.antt =====
-- The fresh identifiers in the payload of an occurrence. `Uuid::new_v4` is a stream of identifiers, and
-- a number says how many were taken from it.
use open_community_groups.Prelude.{ℕ, ◌+◌, String, none, some}
use open_community_groups.Recurrence.Json.{
  Value, string, array, object, Items, nil, cons, Fields, get, insert,
}

unfoldable pub refresh_items : (ℕ → Value → Value × ℕ) → ℕ → Items → Items × ℕ
refresh_items f n nil = (nil, n)
refresh_items f n (cons v vs) =
    let (v', n') = f n v in let (vs', n'') = refresh_items f n' vs in (cons v' vs', n'')

unfoldable pub refresh_array : (ℕ → Value → Value × ℕ) → ℕ → Value → Value × ℕ
unfolding refresh_items
refresh_array f n (array vs) = let (vs', n') = refresh_items f n vs in (array vs', n')
refresh_array f n v = (v, n)

-- The field of the object, if it is there.
unfoldable pub refresh_field : String → (ℕ → Value → Value × ℕ) → ℕ → Fields → Fields × ℕ
refresh_field k f n m = elim (get k m) [
  | none ↦ (m, n)
  | some v ↦ let (v', n') = f n v in (insert k v' m, n')
]

module _ (new_v4 : ℕ → String) where
  -- An object with a fresh identifier.
  unfoldable pub refresh_id : String → ℕ → Value → Value × ℕ
  refresh_id name n (object m) = (object (insert name (string (new_v4 n)) m), n + 1)
  refresh_id name n v = (v, n)

  unfoldable pub refresh_discount_code_ids : ℕ → Value → Value × ℕ
  unfolding refresh_array refresh_id
  refresh_discount_code_ids = refresh_array (refresh_id "event_discount_code_id")

  unfoldable pub refresh_ticket_type : ℕ → Value → Value × ℕ
  unfolding refresh_field refresh_array refresh_id
  refresh_ticket_type n (object m) =
      let m' = insert "event_ticket_type_id" (string (new_v4 n)) m in
      let (m'', n') =
        refresh_field "price_windows" (refresh_array (refresh_id "event_ticket_price_window_id"))
          (n + 1) m' in
      (object m'', n')
  refresh_ticket_type n v = (v, n)

  unfoldable pub refresh_ticketing_ids : ℕ → Value → Value × ℕ
  unfolding refresh_array refresh_ticket_type
  refresh_ticketing_ids = refresh_array refresh_ticket_type
