-- ===== src/Session/Starting/Workers.antt =====
-- The workers on the consume channel, however calls of `Start` and reconnects overlap.
use huma.Base.{
  ℕ, ◌+◌, ◌≤◌, ◌≡◌, refl, inl, inr, Bool, true, List, [], ◌∷◌, Option, arith, total, total-set,
  total-append, get_elem?, set, Option-cases, All,
}
use huma.Go.Errors.{Error}
use huma.Go.Exec.{nil_or}
use huma.Go.Result.{◌>>◌, ok, err}
use huma.Config.Queue.{QueueConfig}
use huma.Start.{check_queues, Call}
use huma.Start.Consumers.{start_plan, start_plans}
use huma.Session.{validate_context}
use huma.Session.Starting.{
  checked, Pc, entering, storing, starting, finished, failed, Shared, work, Move, worked,
  reconnected, System, step_of, move, moves, begin,
}
use huma.Session.Starting.Counts.{
  weight, running, wanted, owed, wanted-append, start_queue-running, restart-running,
}

abbrev pub IsEntering : Pc → Type 0
IsEntering (entering _ _ _) = Unit {0}
IsEntering _ = ⊥

abbrev pub IsFinished : Pc → Type 0
IsFinished finished = Unit {0}
IsFinished _ = ⊥

module _ (p : QueueConfig → Bool) where
  -- The workers on the channel are at most twice those that the kept queues ask for, and after a
  -- replay at least as many, with those that are owed.
  record IsCovered (y : System) : Type 0 where
    waiting : total (owed p) y.starters ≤ wanted p y.shared.kept
    above :
        y.shared.is_replayed ≡ true
        → wanted p y.shared.kept ≤ running p y.shared.calls + total (owed p) y.starters
    below :
        running p y.shared.calls + total (owed p) y.starters
        ≤ wanted p y.shared.kept + wanted p y.shared.kept

  abbrev Covered : ℕ → Pc → Shared → Type 0
  Covered others pc w =
      (owed p pc + others ≤ wanted p w.kept)
      × (w.is_replayed ≡ true → wanted p w.kept ≤ running p w.calls + (owed p pc + others))
      × (running p w.calls + (owed p pc + others) ≤ wanted p w.kept + wanted p w.kept)

  work-Covered :
      (refused : List Call → QueueConfig → Option Error) (others : ℕ) (pc : Pc) (w : Shared)
      → Covered others pc w
      → let (pc', w') = work refused pc w in Covered others pc' w'
  unfolding work
  work-Covered refused others (entering ctx context queues) w h =
      elim (nil_or (validate_context ctx) >> (nil_or context >> check_queues queues))
        as (λ x. Covered others (checked queues x) w) [ ok _ ↦ h | err e ↦ h ]
  work-Covered refused others (storing queues) w (waiting, above, below) = (
    omega (arith, waiting, wanted-append p w.kept queues),
    λ r. omega (arith, above r, wanted-append p w.kept queues),
    omega (arith, below, waiting, wanted-append p w.kept queues),
  )
  work-Covered refused others (starting []) w h = h
  work-Covered refused others (starting (q ∷ qs)) w (waiting, above, below) =
      let parts = total-append (weight p) (start_plan q) (start_plans qs) in
      elim (start_queue-running p refused q w.calls) [
        | inl (_, (e, bad), same) ↦
            rw (bad, work) (waiting, λ r. omega (arith, above r, same), omega (arith, below, same))
        | inr (fine, more) ↦
            rw (fine, work)
              (
                omega (arith, waiting, parts),
                λ r. omega (arith, above r, more, parts),
                omega (arith, below, more, parts),
              )
      ]
  work-Covered refused others finished w h = h
  work-Covered refused others (failed e qs) w h = h

  step-IsCovered :
      (y : System) (i : ℕ) (refused : List Call → QueueConfig → Option Error)
      → IsCovered y
      → IsCovered (move y (worked i refused))
  unfolding move step_of
  step-IsCovered y i refused h = elim (Option-cases (get_elem? y.starters i)) [
    | inl missing ↦ rw (missing, move) h
    | inr (pc, found) ↦
        let o = work refused pc y.shared in
        let others = total (owed p) (set y.starters i finished) in
        let before = total-set (owed p) y.starters i pc finished found in
        let after = total-set (owed p) y.starters i pc o.0 found in
        let (waiting, above, below) = work-Covered refused others pc y.shared (
          omega (arith, h.waiting, before),
          λ r. omega (arith, h.above r, before),
          omega (arith, h.below, before),
        ) in
        rw (found, move, step_of)
          (record {
            waiting = omega (arith, waiting, before, after);
            above = λ r. omega (arith, above r, before, after);
            below = omega (arith, below, before, after);
          })
  ]

  move-IsCovered : (y : System) (m : Move) → IsCovered y → IsCovered (move y m)
  unfolding move
  move-IsCovered y (worked i refused) h = step-IsCovered y i refused h
  move-IsCovered y (reconnected context refused) h =
      let (part, all) = restart-running p context refused y.shared.kept in
      record {
        waiting = h.waiting;
        above = λ r. omega (arith, all r);
        below = omega (arith, part, h.waiting);
      }

  moves-IsCovered : (y : System) (ms : List Move) → IsCovered y → IsCovered (moves y ms)
  unfolding moves
  moves-IsCovered y [] h = h
  moves-IsCovered y (m ∷ ms) h = moves-IsCovered (move y m) ms (move-IsCovered y m h)

  none_owed : (pcs : List Pc) → All IsEntering pcs → total (owed p) pcs ≡ 0
  none_owed [] h = refl
  none_owed (entering ctx context queues ∷ pcs) h = omega (arith, none_owed pcs h.1)
  none_owed (finished ∷ pcs) h = absurd h.0
  none_owed (storing qs ∷ pcs) h = absurd h.0
  none_owed (starting qs ∷ pcs) h = absurd h.0
  none_owed (failed e qs ∷ pcs) h = absurd h.0

  none_left : (pcs : List Pc) → All IsFinished pcs → total (owed p) pcs ≡ 0
  none_left [] h = refl
  none_left (finished ∷ pcs) h = omega (arith, none_left pcs h.1)
  none_left (entering ctx context queues ∷ pcs) h = absurd h.0
  none_left (storing qs ∷ pcs) h = absurd h.0
  none_left (starting qs ∷ pcs) h = absurd h.0
  none_left (failed e qs ∷ pcs) h = absurd h.0

  -- On an SDK that `NewSDK` returned, any number of goroutines call `Start`, and reconnects come in
  -- between their steps, under every schedule and with any answers of `Consume`. When all these calls
  -- have returned nil and the last round of `reconnect` has started the consumers of all queues kept
  -- by then, the consume channel has, of any kind of queue, at least the workers that the queues kept
  -- ask for, and at most twice as many.
  pub moves-IsStaffed :
      (starters : List Pc) (ms : List Move)
      → All IsEntering starters
      → (moves (begin starters) ms).shared.is_replayed ≡ true
      → All IsFinished (moves (begin starters) ms).starters
      → let w = (moves (begin starters) ms).shared in
        (wanted p w.kept ≤ running p w.calls)
        × (running p w.calls ≤ wanted p w.kept + wanted p w.kept)
  moves-IsStaffed starters ms first replayed over =
      let y = moves (begin starters) ms in
      let nothing = none_owed starters first in
      let h : IsCovered y = moves-IsCovered (begin starters) ms (record {
        waiting = omega (arith, nothing);
        above = λ _. omega (arith, nothing);
        below = omega (arith, nothing);
      }) in
      (
        omega (arith, h.above replayed, none_left y.starters over),
        omega (arith, h.below, none_left y.starters over),
      )
