-- ===== src/Shutdown/Kept.antt =====
-- No move of a shutdown replaces the connection, but that of a reconnect, while a goroutine runs.
use huma.Base.{ℕ, suc, ◌≡◌, refl, inl, inr, Option, arith, get_elem?, Option-cases}
use huma.Pool.{Pool}
use huma.Shutdown.{
  Sdk, Reply, Pc, entering, signalling, closing, signal, close_all, act, stepped, goroutine_ended,
  goroutine_started, worker_added, reconnected, pool_moved, System, step_of, goroutines_move, move,
}

act_conn : (r : Reply) (pc : Pc) (s : Sdk) → s.conn ≡ (act r pc s).1.conn
unfolding act signal close_all
act_conn r entering s = refl
act_conn r signalling s = ground arith
act_conn r closing s = ground arith
act_conn r _ s = refl

pub ended_conn : (s : System) → s.sdk.conn ≡ (move s goroutine_ended).sdk.conn
unfolding move goroutines_move
ended_conn s = ground arith

pub started_conn : (s : System) → s.sdk.conn ≡ (move s goroutine_started).sdk.conn
unfolding move goroutines_move
started_conn s = ground arith

pub added_conn : (s : System) → s.sdk.conn ≡ (move s worker_added).sdk.conn
unfolding move goroutines_move
added_conn s = refl

pub pooled_conn : (p : Pool) (s : System) → s.sdk.conn ≡ (move s (pool_moved p)).sdk.conn
unfolding move goroutines_move
pooled_conn p s = ground arith

pub step_conn : (i : ℕ) (r : Reply) (s : System) → s.sdk.conn ≡ (move s (stepped i r)).sdk.conn
unfolding move step_of
step_conn i r s = elim (Option-cases (get_elem? s.callers i)) [
  | inl missing ↦ rw (missing, move, step_of) refl
  | inr (pc, found) ↦ rw (found, move, step_of) (act_conn r pc s.sdk)
]

pub reconnected_conn :
    (c ch : Option ℕ) (p : Option Pool) (n : ℕ) (s : System)
    → s.sdk.running ≡ suc n
    → c ≡ (move s (reconnected c ch p)).sdk.conn
unfolding move goroutines_move
reconnected_conn c ch p n s h = simp (move, goroutines_move, h)
