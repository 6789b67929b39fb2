-- ===== src/Prelude/Loop.antt =====
-- The loop of a background worker: rounds with pauses between them, until its cancellation token is
-- found cancelled. What is found of the token is an input: a list of polls is as much of a run as is
-- looked at.
use mathlib.Core.Bool.{Bool, true, ◌||◌}
use mathlib.Core.List.{List, [], ◌∷◌, ◌++◌}
use mathlib.Core.Logic.{inl, inr}
use mathlib.Core.Option.{Option, none, some}
use mathlib.Core.Path.{◌≡◌}
use native.Mathlib.Omega.{arith}
use Prim.Native.Nat.{ℕ}
use open_community_groups.Prelude.Tests.{if◌then◌else◌, Bool-cases}
use open_community_groups.Prelude.Result.{Result}
use open_community_groups.Prelude.Exec.{Exec}

-- Whether the token was cancelled during the pause of the round, if it has one, and at its end.
pub record Poll : Type 0 where
  pub in_pause : Bool
  pub at_end : Bool

-- Whether the loop is left after a round with the pause, if it has one.
pub leaves : Option ℕ → Poll → Bool
leaves none poll = poll.at_end
leaves (some d) poll = poll.in_pause || poll.at_end

leaves_at_end : (o : Option ℕ) (poll : Poll) → poll.at_end ≡ true → leaves o poll ≡ true
unfolding leaves
leaves_at_end o poll h = ground arith

module _ {C E : Type 0} (pause_after : Result E Bool → Option ℕ) (round : Exec C E Bool) where
  -- The trace of a run over some polls, the newest call first.
  pub run : List Poll → List C → List C
  run [] s = s
  run (poll ∷ polls) s =
      let (r, s') = round s in
      let rest = run polls s' in if leaves (pause_after r) poll then s' else rest

  -- What each round keeps, a run keeps.
  pub run_keeps {ℓ} :
      (P : List C → Type ℓ)
      → ((s : List C) → P s → P (round s).1)
      → (polls : List Poll) (s : List C) → P s
      → P (run polls s)
  unfolding run
  run_keeps P step [] s h = h
  run_keeps P step (poll ∷ polls) s h = elim (Bool-cases (leaves (pause_after (round s).0) poll)) [
    | inl e ↦ rw e (step s h)
    | inr e ↦ rw e (run_keeps P step polls (round s).1 (step s h))
  ]

  -- Polls after one that finds the token cancelled do not matter.
  pub run-append_cancelled_lem :
      (before after : List Poll) (poll : Poll) (s : List C)
      → poll.at_end ≡ true
      → run (before ++ (poll ∷ after)) s ≡ run (before ++ (poll ∷ [])) s
  unfolding run
  run-append_cancelled_lem [] after poll s h = rw (leaves_at_end (pause_after (round s).0) poll h)
  run-append_cancelled_lem (p ∷ before) after poll s h =
      rw (run-append_cancelled_lem before after poll (round s).1 h)
