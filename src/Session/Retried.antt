-- ===== src/Session/Retried.antt =====
-- `Start` keeps its queues before it starts their consumers, and has them kept when that fails.
use mathlib.Core.Path.{subst}
use huma.Base.{◌≡◌, inl, inr, refl, true, ◌∙◌, ap, List, [], ◌∷◌, ◌++◌, Option, none}
use huma.Go.Errors.{Error}
use huma.Config.Queue.{QueueConfig}
use huma.Start.{Call}
use huma.Start.Consumers.{AllStartable, start_with_store_queues_flag-Outcome}
use huma.Reconnect.{Fixed, State, Round, reconnect}
use huma.Reconnect.Resources.{IsHeld, Sound}
use huma.Reconnect.Stages.{IsReplayed}
use huma.Reconnect.Replay.{reconnect-Sound}
use huma.Session.{Context, validate_context, AppCall, start_called, start, guarded, call, calls}

-- With queues added to those that a `Start` has kept.
abbrev pub with_queues : List QueueConfig → Fixed → Fixed
with_queues qs f = record f { queues = f.queues ++ qs }

module _ (ctx : Context) (queues : List QueueConfig) where
  -- The same call again, with what `Consume` answers in each.
  abbrev pub retry :
      (List Call → QueueConfig → Option Error)
      → (List Call → QueueConfig → Option Error)
      → List AppCall
  retry first second = start_called ctx queues none first ∷ start_called ctx queues none second ∷ []

  module _ (valid : validate_context ctx ≡ none) (fit : AllStartable queues) where
    start_keeps :
        (refused : List Call → QueueConfig → Option Error) (f : Fixed)
        → (call (start_called ctx queues none refused) f).1 ≡ with_queues queues f
    unfolding call guarded start
    start_keeps refused f =
        elim (start_with_store_queues_flag-Outcome refused none queues true f.queues []) [
          | inl (_, unfit, _, _) ↦ absurd (unfit (refl, fit))
          | inr (_, _, kept, _) ↦
              rw (valid, guarded) (ap (λ (qs : List QueueConfig). record f { queues = qs }) kept)
        ]

    -- `Start` with a live context and queues that are fit, called again with the same queues because
    -- a call of `Consume` failed the first time, or for any other reason: the SDK keeps the queues
    -- twice, and a `reconnect` that succeeds starts the consumers of each of them twice.
    pub retried_start-IsReplayed_twice :
        (first second : List Call → QueueConfig → Option Error) (f : Fixed) (rounds : List Round)
        (s : State)
        → IsHeld s
        → ((calls (retry first second) f).queues ≡ (f.queues ++ queues) ++ queues)
          × Sound
              (IsReplayed (with_queues queues (with_queues queues f)))
              (reconnect (calls (retry first second) f) rounds s)
    unfolding calls
    retried_start-IsReplayed_twice first second f rounds s held =
        let kept : calls (retry first second) f ≡ with_queues queues (with_queues queues f) =
          start_keeps second (call (start_called ctx queues none first) f).1
          ∙ ap (with_queues queues) (start_keeps first f) in
        (
          ap (λ (g : Fixed). g.queues) kept,
          subst (λ g. Sound (IsReplayed g) (reconnect (calls (retry first second) f) rounds s)) kept
              (reconnect-Sound (calls (retry first second) f) rounds s held),
        )
