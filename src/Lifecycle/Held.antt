-- ===== src/Lifecycle/Held.antt =====
-- In the life of an SDK, `reconnect` leaves no connection open but the one that the SDK holds.
use mathlib.Core.Path.{subst}
use huma.Base.{sym, ℕ, suc, ◌≡◌, ◌⊎◌, inl, inr, refl, List, [], ◌∷◌, ℕ-cases}
use huma.Shutdown.{reconnected, move}
use huma.Shutdown.Kept.{
  step_conn, ended_conn, started_conn, added_conn, pooled_conn, reconnected_conn,
}
use huma.Reconnect.{State, Round, reconnect}
use huma.Reconnect.Resources.{IsHeld}
use huma.Reconnect.Replay.{reconnect-Sound}
use huma.Lifecycle.{
  Life, Move, called, reconnects, shut, ended, started, added, pooled, reconnect_state,
  reconnect_once, live, lives,
}

-- The connection that `reconnect` left is the one that the SDK holds.
abbrev pub IsSafe : Life → Type 0
IsSafe y = IsHeld (reconnect_state y)

held-IsSafe :
    (s : State) (y : Life) → s.conn ≡ y.system.sdk.conn → s.log ≡ y.log → IsHeld s → IsSafe y
unfolding reconnect_state
held-IsSafe s y e l (inl h) = inl (rw (← l) h)
held-IsSafe s y e l (inr (c, held, h)) = inr (c, rw (← e) held, rw (← l) h)

-- After a run of `reconnect` that a shutdown waits for.
abbrev pub replaced : State → Life → Life
replaced s y = record y {
  log = s.log;
  system = move y.system (reconnected s.conn s.channel s.publisher_pool);
}

pub run-cases :
    (rounds : List Round) (y : Life)
    → (reconnect_once rounds y ≡ y)
      ⊎ ((n : ℕ) × (y.system.sdk.running ≡ suc n)
          × (reconnect_once rounds y ≡ replaced (reconnect y.fixed rounds (reconnect_state y)).1 y))
unfolding reconnect_once
run-cases rounds y = elim (ℕ-cases y.system.sdk.running) [
  | inl over ↦ inl (simp (reconnect_once, over))
  | inr (n, going) ↦ inr (n, going, simp (reconnect_once, going))
]

run-IsSafe : (rounds : List Round) (y : Life) → IsSafe y → IsSafe (reconnect_once rounds y)
run-IsSafe rounds y h = elim (run-cases rounds y) [
  | inl same ↦ subst IsSafe (sym same) h
  | inr (n, going, same) ↦
      let s = (reconnect y.fixed rounds (reconnect_state y)).1 in
      subst IsSafe (sym same) (
        held-IsSafe s (replaced s y)
          (reconnected_conn s.conn s.channel s.publisher_pool n y.system going) refl
          (reconnect-Sound y.fixed rounds (reconnect_state y) h).0)
]

live-IsSafe : (y : Life) (m : Move) → IsSafe y → IsSafe (live y m)
unfolding live reconnect_state
live-IsSafe y (called c) h = h
live-IsSafe y (reconnects rounds) h = run-IsSafe rounds y h
live-IsSafe y (shut i r) h =
    held-IsSafe (reconnect_state y) (live y (shut i r)) (step_conn i r y.system) refl h
live-IsSafe y ended h = held-IsSafe (reconnect_state y) (live y ended) (ended_conn y.system) refl h
live-IsSafe y started h =
    held-IsSafe (reconnect_state y) (live y started) (started_conn y.system) refl h
live-IsSafe y added h = held-IsSafe (reconnect_state y) (live y added) (added_conn y.system) refl h
live-IsSafe y (pooled p) h =
    held-IsSafe (reconnect_state y) (live y (pooled p)) (pooled_conn p y.system) refl h

pub lives-IsSafe : (y : Life) (ms : List Move) → IsSafe y → IsSafe (lives y ms)
unfolding lives
lives-IsSafe y [] h = h
lives-IsSafe y (m ∷ ms) h = lives-IsSafe (live y m) ms (live-IsSafe y m h)
