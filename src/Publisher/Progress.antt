-- ===== src/Publisher/Progress.antt =====
-- A publisher whose contexts are done comes back, from wherever it stands.
use huma.Base.{◌-◌, ℕ, ◌+◌, ◌≤◌, ◌≡◌, ◌≢◌, Bool, true, false, List, [], ◌∷◌, none, arith, length}
use huma.Pool.{World}
use huma.Publisher.{
  Reply, Job, Pc, act, entering, checking, taking, testing, dropping, sizing, locking, opening,
  waiting, retesting, redropping, validating, publishing, confirming, returning, finished, closing,
  draining, discarding, stopped, panicked,
}
use huma.Publisher.Accounting.{IsSound, holds, holds_lock, panics, act-IsSound}

-- How many steps are left at most.
abbrev pub rank : Pc → ℕ
rank entering = 1
rank checking = 1
rank taking = 9
rank (testing _) = 8
rank (dropping _) = 7
rank sizing = 6
rank locking = 5
rank opening = 3
rank waiting = 4
rank (retesting _) = 3
rank (redropping _) = 2
rank (validating _) = 2
rank (publishing _) = 3
rank (confirming _) = 2
rank (returning _ _) = 1
rank _ = 0

-- A program counter of `publishAMQP`, as opposed to `close`.
abbrev pub is_publisher : Pc → Bool
is_publisher closing = false
is_publisher (draining _) = false
is_publisher (discarding _ _) = false
is_publisher (stopped _) = false
is_publisher panicked = false
is_publisher _ = true

abbrev pub is_finished : Pc → Bool
is_finished (finished _) = true
is_finished _ = false

-- Both contexts report an error.
abbrev pub IsExpired : Reply → Type 0
IsExpired r = (r.ctx ≢ none) × (r.wait_ctx ≢ none)

abbrev pub AllExpired : List Reply → Type 0
AllExpired [] = Unit {0}
AllExpired (r ∷ rs) = IsExpired r × AllExpired rs

-- The steps of one goroutine, while the others stand still.
unfoldable pub drive : List Reply → Job → Pc → World → Pc × World
drive [] j pc w = (pc, w)
drive (r ∷ rs) j pc w = let (pc', w') = act r j pc w in drive rs j pc' w'

act-rank :
    (r : Reply) (j : Job) (pc : Pc) (w : World) (held panicking : ℕ)
    → IsExpired r
    → is_publisher pc ≡ true
    → IsSound w.pool (held + holds pc) (0 + holds_lock pc) (panicking + panics pc)
    → (is_publisher (act r j pc w).0 ≡ true) × (rank (act r j pc w).0 ≤ rank pc - 1)
unfolding act
act-rank r j entering w held panicking x p h = ground arith
act-rank r j _ w held panicking x p h = ground arith

rank_zero : (pc : Pc) → is_publisher pc ≡ true → rank pc ≡ 0 → is_finished pc ≡ true
rank_zero entering p e = ground arith
rank_zero _ p e = ground arith

-- Nobody else holding the mutex, a publisher whose contexts are done has finished after nine of
-- its steps, wherever it stood: no publisher waits for ever.
pub drive_finishes :
    (rs : List Reply) (j : Job) (pc : Pc) (w : World) (held panicking : ℕ)
    → AllExpired rs
    → is_publisher pc ≡ true
    → IsSound w.pool (held + holds pc) (0 + holds_lock pc) (panicking + panics pc)
    → rank pc ≤ length rs
    → is_finished (drive rs j pc w).0 ≡ true
unfolding drive
drive_finishes [] j pc w held panicking x p h n = rank_zero pc p (omega arith)
drive_finishes (r ∷ rs) j pc w held panicking x p h n =
    let (still, less) = act-rank r j pc w held panicking x.0 p h in
    drive_finishes rs j (act r j pc w).0 (act r j pc w).1 held panicking x.1 still
      (act-IsSound r j pc w held 0 panicking h) (omega arith)
