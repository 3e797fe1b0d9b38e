-- ===== src/Delivery/Workers/Ending.antt =====
-- When the goroutines of a queue end, if every handler that is called returns or panics.
use mathlib.Core.Path.{subst}
use huma.Base.{
  ℕ, ◌+◌, ◌*◌, ◌≤◌, ◌≡◌, ◌≢◌, ◌⊎◌, refl, ◌∙◌, inl, inr, true, List, [], ◌∷◌, Option, none, some,
  arith, length, total, total-set, get_elem?, Option-cases, List-cases, Bool-cases, All, All-set,
  All-get_elem?,
}
use huma.Config.Queue.{QueueConfig}
use huma.Delivery.{returned, panicked, Services}
use huma.Delivery.Workers.{
  Shared, Pc, selecting, stopped, handling, judging, settling, Case, context_done, message_received,
  heartbeat_ticked, receive, fail, work, Move, worked, arrived, channel_closed, System, step_of,
  move, moves,
}
use huma.Delivery.Workers.Sharing.{step-closed}

-- How many steps a goroutine may need until it is back at its select, and one more to end.
abbrev pub place : Pc → ℕ
place stopped = 0
place selecting = 1
place (settling _ _ _) = 2
place (judging _ _) = 3
place (handling _) = 4

abbrev pub IsStopped : Pc → Type 0
IsStopped stopped = Unit {0}
IsStopped _ = ⊥

-- A goroutine that is there and has not ended.
abbrev pub IsRunning : Option Pc → Type 0
IsRunning none = ⊥
IsRunning (some stopped) = ⊥
IsRunning (some _) = Unit {0}

-- A step of a running goroutine that is not a tick of its heartbeat.
abbrev pub IsEffective : System → Move → Type 0
IsEffective y (worked i c) = (c ≢ heartbeat_ticked) × IsRunning (get_elem? y.workers i)
IsEffective y _ = ⊥

abbrev pub steps_left : System → ℕ
steps_left y = 4 * length y.shared.messages + total place y.workers

module _ (s : Services) (handler : ℕ) (q : QueueConfig) where
  -- Every step is effective, until all goroutines have ended.
  abbrev pub AreEffective : System → List Move → Type 0
  AreEffective y [] = Unit {0}
  AreEffective y (m ∷ ms) =
      (All IsStopped y.workers ⊎ IsEffective y m) × AreEffective (move s handler q y m) ms

  abbrev Lower : Shared → Pc → Pc × Shared → Type 0
  Lower w pc (pc', w') = 4 * length w'.messages + place pc' + 1 ≤ 4 * length w.messages + place pc

  receive-Lower :
      (w : Shared) → w.closed ≡ true → Lower w selecting (receive s handler q w.messages w)
  unfolding receive
  receive-Lower w closed = elim (List-cases w.messages) [
    | inl empty ↦ ground (arith, empty, closed)
    | inr (d, rest, full) ↦ ground (arith, full)
  ]

  work-Lower :
      (c : Case) (pc : Pc) (w : Shared)
      → w.closed ≡ true
      → c ≢ heartbeat_ticked
      → IsRunning (some pc)
      → Lower w pc (work s handler q c pc w)
  unfolding work receive fail
  work-Lower context_done selecting w closed no_tick h = omega arith
  work-Lower message_received selecting w closed no_tick h = receive-Lower w closed
  work-Lower heartbeat_ticked selecting w closed no_tick h = absurd (no_tick refl)
  work-Lower c stopped w closed no_tick h = absurd h
  work-Lower c (handling d) w closed no_tick h = omega arith
  work-Lower c (judging d (returned none)) w closed no_tick h = omega arith
  work-Lower c (judging d (returned (some e))) w closed no_tick h = omega arith
  work-Lower c (judging d panicked) w closed no_tick h = omega arith
  work-Lower c (settling d v observe) w closed no_tick h = omega arith

  -- A goroutine that has ended does nothing.
  stopped_lem :
      (c : Case) (pc : Pc) (w : Shared) → IsStopped pc → work s handler q c pc w ≡ (stopped, w)
  unfolding work
  stopped_lem context_done stopped w h = refl
  stopped_lem message_received stopped w h = refl
  stopped_lem heartbeat_ticked stopped w h = refl
  stopped_lem c selecting w h = absurd h
  stopped_lem c (handling d) w h = absurd h
  stopped_lem c (judging d e) w h = absurd h
  stopped_lem c (settling d v o) w h = absurd h

  move-AllStopped :
      (y : System) (m : Move)
      → All IsStopped y.workers
      → All IsStopped (move s handler q y m).workers
  unfolding move step_of
  move-AllStopped y (worked i c) h = elim (Option-cases (get_elem? y.workers i)) [
    | inl missing ↦ rw (missing, move, step_of) h
    | inr (pc, found) ↦
        let over = All-get_elem? IsStopped y.workers i pc found h in
        rw (found, move, step_of, stopped_lem c pc y.shared over)
          (All-set IsStopped y.workers i stopped h tt)
  ]
  move-AllStopped y (arrived d) h = elim (Bool-cases y.shared.closed) [
    | inl late ↦ rw (late, move) h
    | inr open_yet ↦ rw (open_yet, move) h
  ]
  move-AllStopped y channel_closed h = h

  moves-AllStopped :
      (y : System) (ms : List Move)
      → All IsStopped y.workers
      → All IsStopped (moves s handler q y ms).workers
  unfolding moves
  moves-AllStopped y [] h = h
  moves-AllStopped y (m ∷ ms) h = moves-AllStopped (move s handler q y m) ms (move-AllStopped y m h)

  step-lowers :
      (y : System) (i : ℕ) (c : Case)
      → y.shared.closed ≡ true
      → IsEffective y (worked i c)
      → steps_left (move s handler q y (worked i c)) + 1 ≤ steps_left y
  unfolding move step_of
  step-lowers y i c closed h = elim (Option-cases (get_elem? y.workers i)) [
    | inl missing ↦ absurd (subst IsRunning missing h.1)
    | inr (pc, found) ↦
        let o = work s handler q c pc y.shared in
        rw (found, move, step_of)
          (omega (
            arith,
            work-Lower c pc y.shared closed h.0 (subst IsRunning found h.1),
            total-set place y.workers i pc o.0 found,
          ))
  ]

  none_left : (pcs : List Pc) → total place pcs ≡ 0 → All IsStopped pcs
  none_left [] h = tt
  none_left (stopped ∷ pcs) h = (tt, none_left pcs (omega (arith, h)))
  none_left (selecting ∷ pcs) h = absurd (omega (arith, h))
  none_left (handling d ∷ pcs) h = absurd (omega (arith, h))
  none_left (judging d e ∷ pcs) h = absurd (omega (arith, h))
  none_left (settling d v o ∷ pcs) h = absurd (omega (arith, h))

  -- Once the client has closed the channel of a queue, its goroutines end, with handlers that return
  -- or panic: under every schedule of
  -- steps, of which each is one of a goroutine that has not ended and none is a tick of the heartbeat,
  -- all goroutines have ended after four steps for each delivery that waits in the channel and those
  -- that each goroutine has left where it stands, four at most.
  pub moves_end :
      (y : System) (ms : List Move)
      → y.shared.closed ≡ true
      → AreEffective y ms
      → steps_left y ≤ length ms
      → All IsStopped (moves s handler q y ms).workers
  unfolding moves
  moves_end y [] closed effective enough = none_left y.workers (omega (arith, enough))
  moves_end y (m ∷ ms) closed (inl over, rest) enough = moves-AllStopped y (m ∷ ms) over
  moves_end y (worked i c ∷ ms) closed (inr h, rest) enough =
      moves_end (move s handler q y (worked i c)) ms (step-closed s handler q 0 y i c ∙ closed) rest
        (omega (arith, enough, step-lowers y i c closed h))
  moves_end y (arrived d ∷ ms) closed (inr h, rest) enough = absurd h
  moves_end y (channel_closed ∷ ms) closed (inr h, rest) enough = absurd h
