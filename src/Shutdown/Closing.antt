-- ===== src/Shutdown/Closing.antt =====
-- `Shutdown` closes everything once, after all goroutines have ended, and says the same to all.
use huma.Base.{
  ℕ, ◌≡◌, inl, inr, Bool, true, false, List, [], ◌∷◌, Option, none, some, arith, get_elem?, All,
  All-set, All-get_elem?, Option-cases,
}
use huma.Go.Errors.{Error}
use huma.Pool.{Pool}
use huma.Shutdown.{
  Sdk, Reply, Pc, entering, finished, act, Move, stepped, goroutine_ended, goroutine_started,
  worker_added, reconnected, pool_moved, System, goroutines_move, move, moves,
}
use huma.Shutdown.Orderly.{
  IsClosed, IsOrderly, held_pool, held_pool-IsOrderly, IsTimely, Fits, Extends, Fits-Extends,
  act-IsOrderly, act-Extends, act-Fits, goroutines-Extends, goroutines-IsOrderly,
}

abbrev IsSound : Option Pool → System → Type 0
IsSound p s = IsOrderly p s.sdk × All (λ pc. Fits pc s.sdk) s.callers

All-Extends :
    (pcs : List Pc) (s t : Sdk)
    → Extends s t
    → All (λ pc. Fits pc s) pcs
    → All (λ pc. Fits pc t) pcs
All-Extends [] s t x h = tt
All-Extends (pc ∷ pcs) s t x h = (Fits-Extends pc s t x h.0, All-Extends pcs s t x h.1)

step-IsSound :
    (r : Reply) (i : ℕ) (p : Option Pool) (s : System)
    → IsSound p s
    → IsSound (held_pool p s.sdk) (move s (stepped i r))
unfolding move
step-IsSound r i p s (h, k) = elim (Option-cases (get_elem? s.callers i)) [
  | inl missing ↦ rw (missing, move) (held_pool-IsOrderly p s.sdk h, k)
  | inr (pc, found) ↦
      let f : Fits pc s.sdk = All-get_elem? (λ pc. Fits pc s.sdk) s.callers i pc found k in
      let t = (act r pc s.sdk).1 in
      rw (found, move)
        (
          act-IsOrderly r pc p s.sdk f h,
          All-set (λ pc. Fits pc t) s.callers i _
              (All-Extends s.callers s.sdk t (act-Extends r pc s.sdk) k) (act-Fits r pc s.sdk f),
        )
]

goroutines-IsSound :
    (m : Move) (p : Option Pool) (s : System)
    → IsTimely m s.sdk
    → IsSound p s
    → IsSound (held_pool p s.sdk) (record s { sdk = goroutines_move m s.sdk })
goroutines-IsSound m p s timely (h, k) = (
  goroutines-IsOrderly m s.sdk timely (held_pool-IsOrderly p s.sdk h),
  All-Extends s.callers s.sdk (goroutines_move m s.sdk) (goroutines-Extends m s.sdk timely) k,
)

move-IsSound :
    (p : Option Pool) (s : System) (m : Move)
    → IsTimely m s.sdk
    → IsSound p s
    → IsSound (held_pool p s.sdk) (move s m)
unfolding move
move-IsSound p s (stepped i r) timely h = step-IsSound r i p s h
move-IsSound p s goroutine_ended timely h = goroutines-IsSound goroutine_ended p s timely h
move-IsSound p s goroutine_started timely h = goroutines-IsSound goroutine_started p s timely h
move-IsSound p s worker_added timely h = goroutines-IsSound worker_added p s timely h
move-IsSound p s (reconnected c ch q) timely h =
    goroutines-IsSound (reconnected c ch q) p s timely h
move-IsSound p s (pool_moved q) timely h = goroutines-IsSound (pool_moved q) p s timely h

abbrev pub AllTimely : System → List Move → Type 0
AllTimely s [] = Unit {0}
AllTimely s (m ∷ ms) = IsTimely m s.sdk × AllTimely (move s m) ms

-- The pool that the SDK held last while `closeOnce` had not run; before any move, `p`.
abbrev pub last_pool : Option Pool → System → List Move → Option Pool
last_pool p s [] = p
last_pool p s (m ∷ ms) = last_pool (held_pool p s.sdk) (move s m) ms

moves-IsSound :
    (p : Option Pool) (s : System) (ms : List Move)
    → AllTimely s ms
    → IsSound p s
    → IsSound (last_pool p s ms) (moves s ms)
unfolding moves
moves-IsSound p s [] timely h = h
moves-IsSound p s (m ∷ ms) timely h =
    moves-IsSound (held_pool p s.sdk) (move s m) ms timely.1 (move-IsSound p s m timely.0 h)

abbrev pub is_entering : Pc → Bool
is_entering entering = true
is_entering _ = false

abbrev pub IsEntering : Pc → Type 0
IsEntering pc = is_entering pc ≡ true

entering-Fits : (pcs : List Pc) (s : Sdk) → All IsEntering pcs → All (λ pc. Fits pc s) pcs
entering-Fits [] s h = tt
entering-Fits (entering ∷ pcs) s h = (tt, entering-Fits pcs s h.1)
entering-Fits (_ ∷ pcs) s h = cc h.0

-- An SDK on which no shutdown has begun.
pub record IsFresh (s : Sdk) : Type 0 where
  pub unsignalled : s.shutdown_once ≡ false
  pub unclosed : s.close_once ≡ false
  pub unlogged : s.log ≡ []
  pub no_error : s.close_err ≡ none

fresh-IsOrderly : (p : Option Pool) (s : Sdk) → IsFresh s → IsOrderly p s
fresh-IsOrderly p s h = record {
  stage = inl (h.unclosed, h.unlogged, h.no_error);
  signalled = λ e. cc h.unsignalled;
}

finished-IsClosed :
    (e : Option Error) {p : Option Pool} (s : Sdk)
    → IsOrderly p s
    → Fits (finished e) s
    → IsClosed p s
finished-IsClosed e s h f = elim h.stage [
  | inl (open_yet, _, _) ↦ absurd (ground arith)
  | inr c ↦ c
]

-- Calls of `Shutdown` on an SDK on which none has begun, under every schedule of their steps and of
-- what the SDK's goroutines and the publishers do, in which `Start` starts no worker when no goroutine
-- runs any more. Whenever a call has come past `closeOnce`, the
-- context is canceled, no goroutine of the SDK runs, the SDK holds no pool, and the pool that it held
-- last before `closeOnce` ran, with each channel of its buffer, its channel and its connection were
-- closed, each once, in this order and nothing else, and the call returns the error that the SDK
-- keeps: all such calls return the same.
pub finished-IsClosed_once :
    (s : System) (ms : List Move) (i : ℕ) (e : Option Error)
    → IsFresh s.sdk
    → All IsEntering s.callers
    → AllTimely s ms
    → get_elem? (moves s ms).callers i ≡ some (finished e)
    → IsClosed (last_pool none s ms) (moves s ms).sdk × (e ≡ (moves s ms).sdk.close_err)
finished-IsClosed_once s ms i e fresh start timely found =
    let (h, k) =
      moves-IsSound none s ms timely
        (fresh-IsOrderly none s.sdk fresh, entering-Fits s.callers s.sdk start) in
    let f =
      All-get_elem? (λ pc. Fits pc (moves s ms).sdk) (moves s ms).callers i (finished e) found k in
    (finished-IsClosed e (moves s ms).sdk h f, f.1)
