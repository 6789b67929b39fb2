-- ===== src/Enqueue/Recipients.antt =====
-- Lists of users: sorted and without repetitions, as `sort` and `dedup` leave them.
use mathlib.Core.Path.{subst}
use open_community_groups.Prelude.{
  ℕ, ◌≤◌, ◌<◌, ◌≡◌, refl, ◌∙◌, ap, false, not, ◌||◌, List, [], ◌∷◌, ◌++◌, if◌then◌else◌, leb,
  nat_beq, contains, nat_eq, count, arith, Bool-cases, inl, inr,
}
use open_community_groups.Enqueue.Calls.{Uuid, EventFull}

unfoldable pub insert_id : Uuid → List Uuid → List Uuid
insert_id x [] = x ∷ []
insert_id x (y ∷ ys) = let rest = y ∷ insert_id x ys in if leb x y then x ∷ (y ∷ ys) else rest

unfoldable pub sort_ids : List Uuid → List Uuid
unfolding insert_id
sort_ids [] = []
sort_ids (x ∷ xs) = insert_id x (sort_ids xs)

-- `dedup`: of equal neighbours the first stays.
dedup_after : Uuid → List Uuid → List Uuid
dedup_after x [] = []
dedup_after x (y ∷ ys) =
    let kept = y ∷ dedup_after y ys in
    let dropped = dedup_after x ys in if nat_beq x y then dropped else kept

unfoldable pub dedup : List Uuid → List Uuid
unfolding dedup_after
dedup [] = []
dedup (x ∷ xs) = x ∷ dedup_after x xs

abbrev pub flatten : {A : Type 0} → List (List A) → List A
flatten [] = []
flatten (x ∷ xs) = x ++ flatten xs

-- `EventFull::speakers_ids`: a set, listed in order.
unfoldable pub speakers_ids : EventFull → List Uuid
unfolding sort_ids dedup
speakers_ids e = dedup (sort_ids (e.speakers ++ flatten (flatten e.sessions)))

contains-insert_id :
    (u x : Uuid) (ys : List Uuid) → contains (insert_id x ys) u ≡ (nat_beq x u || contains ys u)
unfolding insert_id
contains-insert_id u x [] = refl
contains-insert_id u x (y ∷ ys) = ground (arith, contains-insert_id u x ys)

contains-sort_ids : (u : Uuid) (xs : List Uuid) → contains (sort_ids xs) u ≡ contains xs u
unfolding sort_ids
contains-sort_ids u [] = refl
contains-sort_ids u (x ∷ xs) =
    ground (arith, contains-insert_id u x (sort_ids xs), contains-sort_ids u xs)

-- In order, from a least element on.
IsFrom : Uuid → List Uuid → Type 0
IsFrom x [] = Unit
IsFrom x (y ∷ ys) = (x ≤ y) × IsFrom y ys

insert_id-IsFrom : (l x : Uuid) (ys : List Uuid) → l ≤ x → IsFrom l ys → IsFrom l (insert_id x ys)
unfolding insert_id IsFrom
insert_id-IsFrom l x [] h s = (h, tt)
insert_id-IsFrom l x (y ∷ ys) h (p, s) = elim (Bool-cases (leb x y)) [
  | inl e ↦ rw e (h, (ground (arith, e), s))
  | inr e ↦ rw e (p, insert_id-IsFrom y x ys (ground (arith, e)) s)
]

sort_ids-IsFrom : (xs : List Uuid) → IsFrom 0 (sort_ids xs)
unfolding sort_ids IsFrom
sort_ids-IsFrom [] = tt
sort_ids-IsFrom (x ∷ xs) = insert_id-IsFrom 0 x (sort_ids xs) (omega arith) (sort_ids-IsFrom xs)

contains-IsFrom : (u x : Uuid) (ys : List Uuid) → u < x → IsFrom x ys → contains ys u ≡ false
unfolding IsFrom
contains-IsFrom u x [] h s = refl
contains-IsFrom u x (y ∷ ys) h (p, s) = ground (arith, contains-IsFrom u y ys (omega arith) s)

-- How often a user stands in the list.
abbrev pub times : Uuid → List Uuid → ℕ
times u xs = count (λ x. nat_beq x u) xs

times-dedup_after :
    (u x : Uuid) (ys : List Uuid)
    → IsFrom x ys
    → times u (dedup_after x ys) ≡ (if nat_beq x u then 0 else if contains ys u then 1 else 0)
unfolding dedup_after IsFrom
times-dedup_after u x [] s = ground arith
times-dedup_after u x (y ∷ ys) (p, s) = elim (Bool-cases (nat_beq x y)) [
  | inl e ↦
      ground (arith, e, times-dedup_after u x ys (subst (λ z. IsFrom z ys) (ground (arith, e)) s))
  | inr e ↦ elim (Bool-cases (nat_beq x u)) [
    | inl f ↦
        ground
          (arith, e, f, times-dedup_after u y ys s, contains-IsFrom u y ys (ground (arith, e, f)) s)
    | inr f ↦ ground (arith, e, f, times-dedup_after u y ys s)
  ]
]

times-dedup_from :
    (u : Uuid) (xs : List Uuid)
    → IsFrom 0 xs
    → times u (dedup xs) ≡ (if contains xs u then 1 else 0)
unfolding dedup IsFrom
times-dedup_from u [] s = refl
times-dedup_from u (x ∷ xs) (p, s) = ground (arith, times-dedup_after u x xs s)

-- Sorted and without repetitions, a list has each of its users once.
pub times-dedup :
    (u : Uuid) (xs : List Uuid) → times u (dedup (sort_ids xs)) ≡ (if contains xs u then 1 else 0)
times-dedup u xs =
    times-dedup_from u (sort_ids xs) (sort_ids-IsFrom xs)
    ∙ ap (λ b. if b then 1 else 0) (contains-sort_ids u xs)

pub contains-times : (u : Uuid) (us : List Uuid) → contains us u ≡ not (nat_beq (times u us) 0)
contains-times u [] = refl
contains-times u (x ∷ us) = ground (arith, contains-times u us)

pub contains-dedup : (u : Uuid) (xs : List Uuid) → contains (dedup (sort_ids xs)) u ≡ contains xs u
contains-dedup u xs = ground (arith, contains-times u (dedup (sort_ids xs)), times-dedup u xs)
