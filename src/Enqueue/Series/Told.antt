-- ===== src/Enqueue/Series/Told.antt =====
-- The notifications of a series reach each user that the map has.
use open_community_groups.Prelude.{
  ℕ, ◌+◌, ◌≡◌, ◌≤◌, refl, sym, ◌∙◌, ap, Bool, true, false, not, ◌&&◌, String, List, [], ◌∷◌, map,
  if◌then◌else◌, nat_beq, nat_eq, is_empty, list_same, contains, count, arith, Bool-cases, inl, inr,
}
use open_community_groups.Prelude.Result.{Result, ok, Result-cases}
use open_community_groups.Prelude.Exec.{continue_inv}
use open_community_groups.Notifications.Types.{NotificationKind}
use open_community_groups.Enqueue.Calls.{
  Uuid, EventSeriesNotificationItem, RecipientEvents, EventSeriesNotificationGroup, Call, World,
}
use open_community_groups.Enqueue.Recipients.{times, times-dedup}
use open_community_groups.Enqueue.Groups.{
  Keyed, add_to_group, group_all, values, normalized, insert_group, sort_groups, ids_of,
  group_recipients_by_events,
}
use open_community_groups.Enqueue.Groups.Once.{Reorders, contains-push}
use open_community_groups.Enqueue.Published.{asked}
use open_community_groups.Enqueue.Series.{series_data, notify_group, notify_groups}

module _ (u : Uuid) where
  abbrev pub is_user : Uuid × List EventSeriesNotificationItem → Bool
  is_user (v, events) = nat_beq v u

  abbrev is_told : EventSeriesNotificationGroup → Bool
  is_told g = not (is_empty g.events) && contains g.recipients u

  -- How often the groups with events have the user.
  told : List EventSeriesNotificationGroup → ℕ
  told [] = 0
  told (g ∷ gs) = (if is_empty g.events then 0 else times u g.recipients) + told gs

  told_keyed : Keyed → ℕ
  told_keyed [] = 0
  told_keyed ((k, g) ∷ gs) = let rest = told_keyed gs in if is_told g then 1 + rest else rest

abbrev pub has_none : Uuid × List EventSeriesNotificationItem → Bool
has_none (v, events) = is_empty events

-- All groups have events.
AllFull : Keyed → Type 0
AllFull [] = Unit
AllFull ((k, g) ∷ gs) = (is_empty g.events ≡ false) × AllFull gs

module _ (u : Uuid) where
  told-insert :
      (g : EventSeriesNotificationGroup) (gs : List EventSeriesNotificationGroup)
      → told u (insert_group g gs) ≡ told u (g ∷ gs)
  unfolding told insert_group
  told-insert g [] = refl
  told-insert g (h ∷ hs) = ground (arith, told-insert g hs)

  told-sort : (gs : List EventSeriesNotificationGroup) → told u (sort_groups gs) ≡ told u gs
  unfolding told sort_groups
  told-sort [] = refl
  told-sort (g ∷ gs) = ground (arith, told-insert g (sort_groups gs), told-sort gs)

  told-normalized :
      (gs : List EventSeriesNotificationGroup) → told u (map normalized gs) ≡ count (is_told u) gs
  unfolding told
  told-normalized [] = refl
  told-normalized (g ∷ gs) = ground (arith, times-dedup u g.recipients, told-normalized gs)

  count-values : (gs : Keyed) → count (is_told u) (values gs) ≡ told_keyed u gs
  unfolding values told_keyed
  count-values [] = refl
  count-values ((k, g) ∷ gs) = ground (arith, count-values gs)

  told_keyed-other :
      (key : List Uuid) (v : Uuid) (events : List EventSeriesNotificationItem) (gs : Keyed)
      → nat_beq v u ≡ false
      → told_keyed u (add_to_group key v events gs) ≡ told_keyed u gs
  unfolding told_keyed add_to_group
  told_keyed-other key v events [] e = ground (arith, e)
  told_keyed-other key v events ((k, g) ∷ gs) e =
      ground (arith, e, contains-push u v g.recipients, told_keyed-other key v events gs e)

  told_keyed-same :
      (key : List Uuid) (v : Uuid) (events : List EventSeriesNotificationItem) (gs : Keyed)
      → nat_beq v u ≡ true
      → is_empty events ≡ false
      → AllFull gs
      → told_keyed u gs ≡ 0
      → told_keyed u (add_to_group key v events gs) ≡ 1
  unfolding told_keyed add_to_group AllFull
  told_keyed-same key v events [] e f s n = ground (arith, e, f)
  told_keyed-same key v events ((k, g) ∷ gs) e f (a, b) n =
      ground
        (arith, e, f, a, n, contains-push u v g.recipients, told_keyed-same key v events gs e f b)

add_to_group-AllFull :
    (key : List Uuid) (v : Uuid) (events : List EventSeriesNotificationItem) (gs : Keyed)
    → is_empty events ≡ false
    → AllFull gs
    → AllFull (add_to_group key v events gs)
unfolding add_to_group AllFull
add_to_group-AllFull key v events [] f s = (f, tt)
add_to_group-AllFull key v events ((k, g) ∷ gs) f (a, b) = elim (Bool-cases (list_same k key)) [
  | inl p ↦ rw p (a, b)
  | inr p ↦ rw p (a, add_to_group-AllFull key v events gs f b)
]

group_all-told :
    (u : Uuid) (m : RecipientEvents) (gs : Keyed)
    → count has_none m ≡ 0
    → AllFull gs
    → count (is_user u) m + told_keyed u gs ≤ 1
    → told_keyed u (group_all m gs) ≡ count (is_user u) m + told_keyed u gs
unfolding group_all
group_all-told u [] gs f s h = omega arith
group_all-told u ((v, events) ∷ m) gs f s h =
    let full : is_empty events ≡ false = ground (arith, f) in
    let rest =
      group_all-told u m (add_to_group (ids_of events) v events gs) (ground (arith, f))
        (add_to_group-AllFull (ids_of events) v events gs full s) in
    elim (Bool-cases (nat_beq v u)) [
      | inl e ↦
          let one = told_keyed-same u (ids_of events) v events gs e full s (ground (arith, e, h)) in
          ground (arith, e, h, one, rest)
      | inr e ↦ ground (arith, e, h, told_keyed-other u (ids_of events) v events gs e, rest)
    ]

module _ (w : World) (k : NotificationKind → Bool) (u : Uuid) where
  asked-notify_group :
      (kind : NotificationKind) (settings : String) (recipients : List Uuid)
      (events : List EventSeriesNotificationItem) (s : List Call)
      → (notify_group w kind settings recipients events s).0 ≡ ok tt
      → asked k u (notify_group w kind settings recipients events s).1
        ≡ asked k u s + (if k kind then (if is_empty events then 0 else times u recipients) else 0)
  unfolding notify_group
  asked-notify_group kind settings recipients [] s e = ground arith
  asked-notify_group kind settings recipients (item ∷ items) s e =
      elim (Result-cases
        (w.to_value (series_data kind item.event (item ∷ items) (w.theme settings)))) [
          | inr (x, p) ↦ absurd (ground (arith, p, e))
          | inl (n, p) ↦ ground (arith, p)
        ]

  asked-notify_groups :
      (kind : NotificationKind) (settings : String) (groups : List EventSeriesNotificationGroup)
      (s : List Call)
      → (notify_groups w kind settings groups s).0 ≡ ok tt
      → asked k u (notify_groups w kind settings groups s).1
        ≡ asked k u s + (if k kind then told u groups else 0)
  unfolding notify_groups told
  asked-notify_groups kind settings [] s e = ground arith
  asked-notify_groups kind settings (g ∷ groups) s e =
      let x = notify_group w kind settings g.recipients g.events s in
      let (done, first, last) =
        continue_inv x (λ (_ : Unit {0}). notify_groups w kind settings groups) tt e in
      let one = asked-notify_group kind settings g.recipients g.events s first in
      let two =
        asked-notify_groups kind settings groups x.1
          (sym (ap (λ (r : Result String (Unit {0}) × List Call). r.0) last) ∙ e) in
      ap (λ (r : Result String (Unit {0}) × List Call). asked k u r.1) last
      ∙ (two ∙ ground (arith, one))

module _ (w : World) (map_order : Reorders w.map_order) (group_order : Reorders w.group_order)
    (u : Uuid) where
  told-group :
      (m : RecipientEvents)
      → count has_none m ≡ 0
      → count (is_user u) m ≤ 1
      → told u (group_recipients_by_events w m) ≡ count (is_user u) m
  unfolding group_recipients_by_events told_keyed AllFull
  told-group m f h =
      let gs = group_all (w.map_order m) [] in
      told-sort u (map normalized (w.group_order (values gs)))
      ∙ (told-normalized u (w.group_order (values gs))
          ∙ (group_order (is_told u) (values gs)
              ∙ (count-values u gs
                  ∙ (group_all-told u (w.map_order m) [] (map_order has_none m ∙ f) tt
                        (omega (arith, map_order (is_user u) m, h))
                      ∙ omega (arith, map_order (is_user u) m)))))

  -- One notification for each user of a map that has no user twice.
  pub asked-grouped :
      (k : NotificationKind → Bool) (kind : NotificationKind) (settings : String)
      (m : RecipientEvents) (s : List Call)
      → count has_none m ≡ 0
      → count (is_user u) m ≤ 1
      → (notify_groups w kind settings (group_recipients_by_events w m) s).0 ≡ ok tt
      → asked k u (notify_groups w kind settings (group_recipients_by_events w m) s).1
        ≡ asked k u s + (if k kind then count (is_user u) m else 0)
  asked-grouped k kind settings m s f h e =
      asked-notify_groups w k u kind settings (group_recipients_by_events w m) s e
      ∙ ap (λ n. asked k u s + (if k kind then n else 0)) (told-group m f h)
