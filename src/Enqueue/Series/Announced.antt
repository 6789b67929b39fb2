-- ===== src/Enqueue/Series/Announced.antt =====
-- Who is told that events of a series were published.
use open_community_groups.Prelude.{
  ℕ, ◌+◌, ◌≡◌, ◌≤◌, refl, sym, ◌∙◌, ap, Bool, true, false, not, ◌&&◌, String, List, [], ◌∷◌, ◌++◌,
  if◌then◌else◌, nat_eq, contains, count, any, arith,
}
use open_community_groups.Prelude.Result.{Result, ok}
use open_community_groups.Prelude.Exec.{continue_inv, bind_ok, ◌>>◌}
use open_community_groups.Notifications.Types.{
  NotificationKind, event_series_published, speaker_series_welcome,
}
use open_community_groups.Enqueue.Calls.{Uuid, EventFull, RecipientEvents, Call, World}
use open_community_groups.Enqueue.Recipients.{
  sort_ids, dedup, contains-dedup, contains-times, speakers_ids,
}
use open_community_groups.Enqueue.Groups.{push_all, group_recipients_by_events}
use open_community_groups.Enqueue.Groups.Once.{Reorders}
use open_community_groups.Enqueue.Series.Maps.{
  added, collected, collected-has_none, count-collected,
}
use open_community_groups.Enqueue.Series.Told.{is_user, has_none, asked-grouped}
use open_community_groups.Enqueue.Published.{asked, speaks, contains-speakers_ids, times-without}
use open_community_groups.Enqueue.Series.{
  event_series_notification_item, notify_groups, published_events, tell_both, tell_published,
  enqueue_event_series_published_notifications,
}
use open_community_groups.Enqueue.{Enqueue, without}

abbrev pub is_series_published : NotificationKind → Bool
is_series_published event_series_published = true
is_series_published _ = false

abbrev pub is_series_welcome : NotificationKind → Bool
is_series_welcome speaker_series_welcome = true
is_series_welcome _ = false

contains-without :
    (u : Uuid) (speakers us : List Uuid)
    → contains (without speakers us) u ≡ (not (contains speakers u) && contains us u)
contains-without u speakers us = ground (
  arith,
  contains-times u (without speakers us),
  contains-times u us,
  times-without u speakers us,
)

-- Whom a map has, at most once.
IsOnce : Uuid → RecipientEvents → Type 0
IsOnce u m = (count has_none m ≡ 0) × (count (is_user u) m ≤ 1)

module _ (w : World) (map_order : Reorders w.map_order) (group_order : Reorders w.group_order)
    (k : NotificationKind → Bool) (u : Uuid) where
  abbrev both : RecipientEvents → RecipientEvents → String → Enqueue (Unit {0})
  both members speakers settings =
      notify_groups w event_series_published settings (group_recipients_by_events w members)
      >> notify_groups w speaker_series_welcome settings (group_recipients_by_events w speakers)

  abbrev announced : RecipientEvents → RecipientEvents → ℕ
  announced members speakers =
      (if k event_series_published then count (is_user u) members else 0)
      + (if k speaker_series_welcome then count (is_user u) speakers else 0)

  asked-both :
      (members speakers : RecipientEvents) (settings : String) (s : List Call)
      → IsOnce u members
      → IsOnce u speakers
      → (both members speakers settings s).0 ≡ ok tt
      → asked k u (both members speakers settings s).1 ≡ asked k u s + announced members speakers
  unfolding IsOnce
  asked-both members speakers settings s (f, h) (g, i) e =
      let x =
        notify_groups w event_series_published settings (group_recipients_by_events w members) s in
      let (done, first, last) =
        continue_inv x
          (λ (_ : Unit {0}).
            notify_groups w speaker_series_welcome settings (group_recipients_by_events w speakers))
          tt e in
      let one =
        asked-grouped w map_order group_order u k event_series_published settings members s f h
          first in
      let two =
        asked-grouped w map_order group_order u k speaker_series_welcome settings speakers x.1 g i
          (sym (ap (λ (r : Result String (Unit {0}) × List Call). r.0) last) ∙ e) in
      ap (λ (r : Result String (Unit {0}) × List Call). asked k u r.1) last
      ∙ (two ∙ omega (arith, one))

  asked-tell_both :
      (members speakers : RecipientEvents) (s : List Call)
      → IsOnce u members
      → IsOnce u speakers
      → (tell_both w members speakers s).0 ≡ ok tt
      → asked k u (tell_both w members speakers s).1 ≡ asked k u s + announced members speakers
  unfolding tell_both
  asked-tell_both members speakers s f g e =
      let (settings, read, rest) =
        continue_inv (w.get_site_settings s, Call.get_site_settings ∷ s) (both members speakers) tt
          e in
      ap (λ (r : Result String (Unit {0}) × List Call). asked k u r.1) rest
      ∙ asked-both members speakers settings (Call.get_site_settings ∷ s) f g
          (sym (ap (λ (r : Result String (Unit {0}) × List Call). r.0) rest) ∙ e)

  asked-tell_published :
      (members speakers : RecipientEvents) (s : List Call)
      → IsOnce u members
      → IsOnce u speakers
      → (tell_published w (members, speakers) s).0 ≡ ok tt
      → asked k u (tell_published w (members, speakers) s).1
        ≡ asked k u s + announced members speakers
  unfolding tell_published
  asked-tell_published [] [] s f g e = ground arith
  asked-tell_published (x ∷ members) speakers s f g e =
      asked-tell_both (x ∷ members) speakers s f g e
  asked-tell_published [] (x ∷ speakers) s f g e = asked-tell_both [] (x ∷ speakers) s f g e

choose_pair :
    {A B : Type 0} (b : Bool) (x x' : A) (y y' : B)
    → ◌≡◌ {A = A × B}
        (if b then (x, y) else (x', y'))
        ((if b then x else x'), (if b then y else y'))
choose_pair true x x' y y' = refl
choose_pair false x x' y y' = refl

module _ (w : World) (c g : Uuid) (events : Uuid → EventFull) (u : Uuid) where
  -- The database gives the same of an event throughout.
  abbrev pub AreSteady : Type 0
  AreSteady = (e : Uuid) (s : List Call) → w.get_event_full c g e s ≡ ok (events e)

  -- The user speaks at the event, which is no test.
  abbrev pub welcomed : Uuid → Bool
  welcomed e = not (events e).test_event && speaks u (events e)

  -- The user is one of the members and does not speak at the event, which is no test.
  abbrev pub told_as : List Uuid → Uuid → Bool
  told_as members e = not (events e).test_event && (not (speaks u (events e)) && contains members u)

  abbrev speakers_of : Uuid → List Uuid
  speakers_of e = speakers_ids (events e)

  abbrev listeners_of : List Uuid → Uuid → List Uuid
  listeners_of members e = without (speakers_of e) members

  published_events-collected :
      AreSteady
      → (kind : NotificationKind → Bool) (members es : List Uuid) (a b : RecipientEvents)
        (s : List Call)
      → ((published_events w c g members es (a, b) s).0
          ≡ ok
              (collected w events (listeners_of members) es a, collected w events speakers_of es b))
        × (asked kind u (published_events w c g members es (a, b) s).1 ≡ asked kind u s)
  unfolding published_events collected
  published_events-collected steady kind members [] a b s = (refl, refl)
  published_events-collected steady kind members (e ∷ es) a b s =
      let item = event_series_notification_item w (events e) in
      let test = (events e).test_event in
      rw
        (
          steady e s,
          choose_pair test a (push_all item (listeners_of members e) a) b
              (push_all item (speakers_of e) b),
        )
        (published_events-collected steady kind members es
          (added test item (listeners_of members e) a) (added test item (speakers_of e) b)
          (Call.get_event_full c g e ∷ s))

  welcomed-same :
      (e : Uuid) → (not (events e).test_event && contains (speakers_of e) u) ≡ welcomed e
  welcomed-same e = ap (λ b. not (events e).test_event && b) (contains-speakers_ids u (events e))

  told_as-same :
      (l : List Uuid) (e : Uuid)
      → (not (events e).test_event && contains (listeners_of (dedup (sort_ids l)) e) u)
        ≡ told_as l e
  told_as-same l e =
      ap (λ b. not (events e).test_event && b)
        (contains-without u (speakers_of e) (dedup (sort_ids l))
          ∙ (ap (λ b. not b && contains (dedup (sort_ids l)) u) (contains-speakers_ids u (events e))
              ∙ ap (λ b. not (speaks u (events e)) && b) (contains-dedup u l)))

  -- While the database gives the same of each event, and whatever the orders of the hash maps, a
  -- successful call for a published series asks for one welcome for each user that speaks at one or
  -- more of the events that are no tests, and for one announcement for each member of the group or its
  -- team that does not speak at one or more of them; for none for others.
  pub enqueue_event_series_published_notifications-once :
      AreSteady
      → Reorders w.map_order
      → Reorders w.group_order
      → (es m t : List Uuid) (s : List Call) → w.list_group_members_ids g s ≡ ok m
      → w.list_group_team_members_ids g (Call.list_group_members_ids g ∷ s) ≡ ok t
      → (enqueue_event_series_published_notifications w c g es s).0 ≡ ok tt
      → (asked is_series_published u (enqueue_event_series_published_notifications w c g es s).1
          ≡ asked is_series_published u s + (if any (told_as (m ++ t)) es then 1 else 0))
        × (asked is_series_welcome u (enqueue_event_series_published_notifications w c g es s).1
            ≡ asked is_series_welcome u s + (if any welcomed es then 1 else 0))
  unfolding enqueue_event_series_published_notifications IsOnce
  enqueue_event_series_published_notifications-once steady map_order group_order es m t s p q e =
      let members = dedup (sort_ids (m ++ t)) in
      let s2 = Call.list_group_team_members_ids g ∷ (Call.list_group_members_ids g ∷ s) in
      let a = collected w events (listeners_of members) es [] in
      let b = collected w events speakers_of es [] in
      let (read, same) =
        published_events-collected steady is_series_published members es [] [] s2 in
      let (_, same_welcome) =
        published_events-collected steady is_series_welcome members es [] [] s2 in
      let s3 = (published_events w c g members es ([], []) s2).1 in
      let run : enqueue_event_series_published_notifications w c g es s
          ≡ tell_published w (a, b) s3 =
        rw (p, q)
          (bind_ok (published_events w c g members es ([], [])) (tell_published w) s2 (a, b)
            read) in
      let done = sym (ap (λ (r : Result String (Unit {0}) × List Call). r.0) run) ∙ e in
      let told =
        count-collected w events (listeners_of members) u (told_as (m ++ t)) (told_as-same (m ++ t))
          es [] in
      let spoken = count-collected w events speakers_of u welcomed welcomed-same es [] in
      let once_a : IsOnce u a =
        (collected-has_none w events (listeners_of members) es [] refl, ground (arith, told)) in
      let once_b : IsOnce u b =
        (collected-has_none w events speakers_of es [] refl, ground (arith, spoken)) in
      (
        ap (λ (r : Result String (Unit {0}) × List Call). asked is_series_published u r.1) run
            ∙ (asked-tell_published w map_order group_order is_series_published u a b s3 once_a
                  once_b done
                ∙ ground (arith, same, told)),
        ap (λ (r : Result String (Unit {0}) × List Call). asked is_series_welcome u r.1) run
            ∙ (asked-tell_published w map_order group_order is_series_welcome u a b s3 once_a once_b
                  done
                ∙ ground (arith, same_welcome, spoken)),
      )
