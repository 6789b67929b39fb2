-- ===== src/Enqueue/Published.antt =====
-- Who is told that an event was published.
use open_community_groups.Prelude.{
  ℕ, ◌+◌, ◌≡◌, sym, ap, ◌∙◌, String, Bool, true, false, List, [], ◌∷◌, ◌++◌, contains, nat_eq,
  nat_beq, if◌then◌else◌, arith, Bool-cases, inl, inr,
}
use open_community_groups.Prelude.Result.{Result, ok, Result-cases}
use open_community_groups.Prelude.Exec.{◌>>◌, pure, continue_inv}
use open_community_groups.Notifications.Types.{NotificationKind, event_published, speaker_welcome}
use open_community_groups.Enqueue.Calls.{
  Uuid, EventSummary, EventFull, NewNotification, Call, World,
}
use open_community_groups.Enqueue.Recipients.{
  sort_ids, dedup, speakers_ids, flatten, times, times-dedup, contains-dedup,
}
use open_community_groups.Enqueue.{
  without, notify, notify_some, announce, publish, enqueue_event_published_notifications, Enqueue,
}

abbrev pub is_published : NotificationKind → Bool
is_published event_published = true
is_published _ = false

abbrev pub is_speaker_welcome : NotificationKind → Bool
is_speaker_welcome speaker_welcome = true
is_speaker_welcome _ = false

-- How often a user is a recipient of a notification of the kind that was asked to be enqueued.
abbrev pub asked : (NotificationKind → Bool) → Uuid → List Call → ℕ
asked kind u [] = 0
asked kind u (Call.enqueue_notification n ∷ s) =
    let rest = asked kind u s in if kind n.kind then times u n.recipients + rest else rest
asked kind u (_ ∷ s) = asked kind u s

pub times-without :
    (u : Uuid) (speakers us : List Uuid)
    → times u (without speakers us) ≡ (if contains speakers u then 0 else times u us)
times-without u speakers [] = ground arith
times-without u speakers (x ∷ us) = elim (Bool-cases (nat_beq x u)) [
  | inl e ↦
      let same : x ≡ u = ground (arith, e) in
      ground (arith, e, ap (contains speakers) same, times-without u speakers us)
  | inr e ↦ ground (arith, e, times-without u speakers us)
]

module _ (w : World) where
  -- The builders make a notification of the kind for the recipients.
  abbrev pub Builds : Type 0
  Builds =
      (kind : NotificationKind) (event : EventSummary) (recipients : List Uuid) (settings : String)
      (n : NewNotification)
      → w.build kind event recipients settings ≡ ok n
      → (n.kind ≡ kind) × (n.recipients ≡ recipients)

  module _ (builds : Builds) (k : NotificationKind → Bool) (u : Uuid) where
    asked-notify :
        (kind : NotificationKind) (event : EventSummary) (recipients : List Uuid)
        (settings : String) (s : List Call)
        → (notify w kind event recipients settings s).0 ≡ ok tt
        → asked k u (notify w kind event recipients settings s).1
          ≡ asked k u s + (if k kind then times u recipients else 0)
    unfolding notify
    asked-notify kind event recipients settings s e =
        elim (Result-cases (w.build kind event recipients settings)) [
          | inr (x, p) ↦ absurd (ground (arith, p, e))
          | inl (n, p) ↦
              let (same_kind, same_recipients) = builds kind event recipients settings n p in
              ground (arith, p, ap k same_kind, ap (times u) same_recipients)
        ]

    asked-notify_some :
        (kind : NotificationKind) (event : EventSummary) (recipients : List Uuid)
        (settings : String) (s : List Call)
        → (notify_some w kind event recipients settings s).0 ≡ ok tt
        → asked k u (notify_some w kind event recipients settings s).1
          ≡ asked k u s + (if k kind then times u recipients else 0)
    unfolding notify_some
    asked-notify_some kind event [] settings s e = ground arith
    asked-notify_some kind event (x ∷ recipients) settings s e =
        asked-notify kind event (x ∷ recipients) settings s e

    -- What is asked for once by the kind of an announcement.
    abbrev announced : List Uuid → List Uuid → ℕ
    announced recipients speakers =
        (if k event_published then times u recipients else 0)
        + (if k speaker_welcome then times u speakers else 0)

    abbrev told : EventFull → List Uuid → List Uuid → String → Enqueue (Unit {0})
    told event recipients speakers settings =
        notify_some w event_published event.summary recipients settings
        >> notify_some w speaker_welcome event.summary speakers settings

    asked-told :
        (event : EventFull) (recipients speakers : List Uuid) (settings : String) (s : List Call)
        → (told event recipients speakers settings s).0 ≡ ok tt
        → asked k u (told event recipients speakers settings s).1
          ≡ asked k u s + announced recipients speakers
    asked-told event recipients speakers settings s e =
        let x = notify_some w event_published event.summary recipients settings s in
        let (done, first, last) =
          continue_inv x
            (λ (_ : Unit {0}). notify_some w speaker_welcome event.summary speakers settings) tt
            e in
        let one = asked-notify_some event_published event.summary recipients settings s first in
        let two =
          asked-notify_some speaker_welcome event.summary speakers settings x.1
            (sym (ap (λ (r : Result String (Unit {0}) × List Call). r.0) last) ∙ e) in
        ap (λ (r : Result String (Unit {0}) × List Call). asked k u r.1) last ∙ (two ∙ omega arith)

    asked-announce :
        (event : EventFull) (recipients speakers : List Uuid) (s : List Call)
        → (announce w event recipients speakers s).0 ≡ ok tt
        → asked k u (announce w event recipients speakers s).1
          ≡ asked k u s + announced recipients speakers
    unfolding announce
    asked-announce event recipients speakers s e =
        let (settings, read, rest) =
          continue_inv (w.get_site_settings s, Call.get_site_settings ∷ s)
            (told event recipients speakers) tt e in
        ap (λ (r : Result String (Unit {0}) × List Call). asked k u r.1) rest
        ∙ asked-told event recipients speakers settings (Call.get_site_settings ∷ s)
            (sym (ap (λ (r : Result String (Unit {0}) × List Call). r.0) rest) ∙ e)

    asked-publish :
        (event : EventFull) (recipients speakers : List Uuid) (s : List Call)
        → (publish w event recipients speakers s).0 ≡ ok tt
        → asked k u (publish w event recipients speakers s).1
          ≡ asked k u s + announced recipients speakers
    unfolding publish
    asked-publish event [] [] s e = ground arith
    asked-publish event (x ∷ recipients) speakers s e =
        asked-announce event (x ∷ recipients) speakers s e
    asked-publish event [] (x ∷ speakers) s e = asked-announce event [] (x ∷ speakers) s e

    asked-publish_unless :
        (test : Bool) (event : EventFull) (recipients speakers : List Uuid) (s : List Call)
        → ((if test then pure tt else publish w event recipients speakers) s).0 ≡ ok tt
        → asked k u ((if test then pure tt else publish w event recipients speakers) s).1
          ≡ asked k u s + (if test then 0 else announced recipients speakers)
    asked-publish_unless true event recipients speakers s e = omega arith
    asked-publish_unless false event recipients speakers s e =
        asked-publish event recipients speakers s e

    asked-published :
        (c g e : Uuid) (s : List Call) (event : EventFull) (m t : List Uuid)
        → w.get_event_full c g e s ≡ ok event
        → w.list_group_members_ids g (Call.get_event_full c g e ∷ s) ≡ ok m
        → w.list_group_team_members_ids g
            (Call.list_group_members_ids g ∷ (Call.get_event_full c g e ∷ s))
          ≡ ok t
        → (enqueue_event_published_notifications w c g e s).0 ≡ ok tt
        → asked k u (enqueue_event_published_notifications w c g e s).1
          ≡ asked k u s
            + (if event.test_event
                then 0
                else announced
                    (without (speakers_ids event) (dedup (sort_ids (m ++ t))))
                    (speakers_ids event))
    unfolding enqueue_event_published_notifications
    asked-published c g e s event m t p q r done =
        let s3 =
          Call.list_group_team_members_ids g
          ∷ (Call.list_group_members_ids g ∷ (Call.get_event_full c g e ∷ s)) in
        let recipients = without (speakers_ids event) (dedup (sort_ids (m ++ t))) in
        let run : enqueue_event_published_notifications w c g e s
            ≡ (if event.test_event
                  then pure tt
                  else publish w event recipients (speakers_ids event))
                s3 =
          rw (p, q, r) in
        ap (λ (x : Result String (Unit {0}) × List Call). asked k u x.1) run
        ∙ asked-publish_unless event.test_event event recipients (speakers_ids event) s3
            (sym (ap (λ (x : Result String (Unit {0}) × List Call). x.0) run) ∙ done)

-- The user is a speaker of the event or of one of its sessions.
abbrev pub speaks : Uuid → EventFull → Bool
speaks u event = contains (event.speakers ++ flatten (flatten event.sessions)) u

times-speakers_ids :
    (u : Uuid) (event : EventFull)
    → times u (speakers_ids event)
      ≡ (if contains (event.speakers ++ flatten (flatten event.sessions)) u then 1 else 0)
unfolding speakers_ids
times-speakers_ids u event = times-dedup u (event.speakers ++ flatten (flatten event.sessions))

pub contains-speakers_ids :
    (u : Uuid) (event : EventFull)
    → contains (speakers_ids event) u
      ≡ contains (event.speakers ++ flatten (flatten event.sessions)) u
unfolding speakers_ids
contains-speakers_ids u event =
    contains-dedup u (event.speakers ++ flatten (flatten event.sessions))

module _ (w : World) (builds : Builds w) where
  -- A successful publication of an event that is no test asks for one welcome for each speaker of the
  -- event or its sessions, and for one announcement for each other member of the group or its team,
  -- however often these lists name them; of a test event nobody is told. The builders are assumed to
  -- keep the kind and the recipients they are given.
  pub enqueue_event_published_notifications-once :
      (c g e u : Uuid) (s : List Call) (event : EventFull) (m t : List Uuid)
      → w.get_event_full c g e s ≡ ok event
      → w.list_group_members_ids g (Call.get_event_full c g e ∷ s) ≡ ok m
      → w.list_group_team_members_ids g
          (Call.list_group_members_ids g ∷ (Call.get_event_full c g e ∷ s))
        ≡ ok t
      → (enqueue_event_published_notifications w c g e s).0 ≡ ok tt
      → (asked is_published u (enqueue_event_published_notifications w c g e s).1
          ≡ asked is_published u s
            + (if event.test_event
                then 0
                else if speaks u event
                then 0
                else if contains (m ++ t) u
                then 1
                else 0))
        × (asked is_speaker_welcome u (enqueue_event_published_notifications w c g e s).1
            ≡ asked is_speaker_welcome u s
              + (if event.test_event then 0 else if speaks u event then 1 else 0))
  enqueue_event_published_notifications-once c g e u s event m t p q r done =
      let recipients = without (speakers_ids event) (dedup (sort_ids (m ++ t))) in
      let told_once : times u recipients + 0
          ≡ (if speaks u event then 0 else if contains (m ++ t) u then 1 else 0) =
        omega arith
        ∙ (times-without u (speakers_ids event) (dedup (sort_ids (m ++ t)))
            ∙ rw (contains-speakers_ids u event, times-dedup u (m ++ t))) in
      (
        asked-published w builds is_published u c g e s event m t p q r done
            ∙ ap (λ x. asked is_published u s + (if event.test_event then 0 else x)) told_once,
        asked-published w builds is_speaker_welcome u c g e s event m t p q r done
            ∙ ap (λ x. asked is_speaker_welcome u s + (if event.test_event then 0 else x))
                (omega arith ∙ times-speakers_ids u event),
      )
