-- ===== src/Shutdown/Progress.antt =====
-- A call of `Shutdown` waits only while a goroutine runs and its own context is not done.
use huma.Base.{ℕ, ◌-◌, ◌≤◌, ◌≡◌, ◌≢◌, ◌⊎◌, Bool, true, false, List, [], ◌∷◌, none, arith, length}
use huma.Shutdown.{
  Sdk, Reply, Pc, entering, signalling, waiting, closing, gave_up, finished, wait, act,
}

-- How many steps are left at most.
abbrev pub rank : Pc → ℕ
rank entering = 4
rank signalling = 3
rank waiting = 2
rank closing = 1
rank (gave_up _) = 0
rank (finished _) = 0

abbrev pub is_returned : Pc → Bool
is_returned (gave_up _) = true
is_returned (finished _) = true
is_returned _ = false

-- The steps of one caller, with the SDK that it finds before each.
pub drive : List (Reply × Sdk) → Pc → Pc
drive [] pc = pc
drive ((r, s) ∷ rest) pc = drive rest (act r pc s).0

-- Before each step the context is done, or no goroutine is left.
abbrev pub NeverWaits : List (Reply × Sdk) → Type 0
NeverWaits [] = Unit {0}
NeverWaits ((r, s) ∷ rest) = ((r.ctx ≢ none) ⊎ (s.running ≡ 0)) × NeverWaits rest

act-rank :
    (r : Reply) (pc : Pc) (s : Sdk)
    → (r.ctx ≢ none) ⊎ (s.running ≡ 0)
    → rank (act r pc s).0 ≤ rank pc - 1
unfolding act wait
act-rank r entering s h = ground arith
act-rank r _ s h = ground arith

rank_zero : (pc : Pc) → rank pc ≡ 0 → is_returned pc ≡ true
rank_zero entering h = ground arith
rank_zero _ h = ground arith

-- A call of `Shutdown` that finds, at each of its steps, its context done or no goroutine of the SDK
-- running, whatever else happened in between, has returned after as many steps as its place in the
-- code leaves, which are four at most.
pub drive_returns :
    (steps : List (Reply × Sdk)) (pc : Pc)
    → NeverWaits steps
    → rank pc ≤ length steps
    → is_returned (drive steps pc) ≡ true
unfolding drive
drive_returns [] pc h n = rank_zero pc (omega arith)
drive_returns ((r, s) ∷ rest) pc h n =
    drive_returns rest (act r pc s).0 h.1 (omega (arith, act-rank r pc s h.0))
