-- ===== src/Reconnect/Resources.antt =====
-- The connections that `reconnect` opens: none is lost.
use huma.Base.{
  remove, remove_all, ℕ, ◌≡◌, ◌⊎◌, inl, inr, refl, List, [], ◌∷◌, some, Option-cases, Bool-cases,
}
use huma.Reconnect.{
  Step, conn_closed, dialed, State, Round, Ending, again, stopped, reconnected, log_of,
  wait_reconnect, close_old_pool, close_old_channel, close_old_conn, close_reconnect_resources,
  give_up_round,
}

-- The connections that a log leaves open.
abbrev pub open_conns : List Step → List ℕ
open_conns [] = []
open_conns (dialed c ∷ l) = c ∷ open_conns l
open_conns (conn_closed c ∷ l) = remove c (open_conns l)
open_conns (_ ∷ l) = open_conns l

-- No connection is open but the one that the SDK holds.
abbrev pub IsHeld : State → Type 0
IsHeld s = (open_conns s.log ≡ []) ⊎ ((c : ℕ) × (s.conn ≡ some c) × (open_conns s.log ≡ c ∷ []))

-- The connection `c` is open, and the SDK holds it.
pub record IsOn (c : ℕ) (s : State) : Type 0 where
  pub held : s.conn ≡ some c
  pub open_alone : open_conns s.log ≡ c ∷ []

-- An ending after which no connection is lost, and after a success `P` holds.
abbrev pub Sound : (State → Type 0) → Ending × State → Type 0
Sound P (e, s) = IsHeld s × (e ≡ reconnected → P s)

pub IsOn-IsHeld : (c : ℕ) (s : State) → IsOn c s → IsHeld s
IsOn-IsHeld c s h = inr (c, h.held, h.open_alone)

module _ (P : State → Type 0) (r : Round) where
  pub wait-Sound : (s : State) → IsHeld s → Sound P (wait_reconnect r s)
  unfolding wait_reconnect
  wait-Sound s h = elim (Bool-cases r.timer_fired) [
    | inl fired ↦ rw (fired, wait_reconnect) (h, λ e. cc)
    | inr late ↦ rw (late, wait_reconnect) (h, λ e. cc)
  ]

  pub give_up-Sound : (ch c : ℕ) (s : State) → IsOn c s → Sound P (give_up_round r ch c s)
  unfolding give_up_round close_reconnect_resources
  give_up-Sound ch c s h = wait-Sound _ (inl (rw (h.open_alone) (remove_all c)))

-- A connection that is alone is closed.
pub closed-IsHeld :
    (c : ℕ) (s : State) → open_conns s.log ≡ c ∷ [] → IsHeld (log_of (conn_closed c) s)
closed-IsHeld c s h = inl (rw h (remove_all c))

close_conn_lem : (s : State) → IsHeld s → open_conns (close_old_conn s).log ≡ []
unfolding close_old_conn
close_conn_lem s (inl h) = elim (Option-cases s.conn) [
  | inl none_held ↦ rw (none_held, close_old_conn) h
  | inr (c, held) ↦ rw (held, close_old_conn, h) refl
]
close_conn_lem s (inr (c, held, h)) = rw (held, close_old_conn, h) (remove_all c)

close_channel_lem : (s : State) → IsHeld s → IsHeld (close_old_channel s)
unfolding close_old_channel
close_channel_lem s h = elim (Option-cases s.channel) [
  | inl none_held ↦ rw (none_held, close_old_channel) h
  | inr (ch, held) ↦ rw (held, close_old_channel) h
]

close_pool_lem : (s : State) → IsHeld s → IsHeld (close_old_pool s)
unfolding close_old_pool
close_pool_lem s h = elim (Option-cases s.publisher_pool) [
  | inl none_held ↦ rw (none_held, close_old_pool) h
  | inr (p, held) ↦ rw (held, close_old_pool) h
]

-- After the old pool, channel and connection are closed, no connection is open.
pub close_old_lem :
    (s : State)
    → IsHeld s
    → open_conns (close_old_conn (close_old_channel (close_old_pool s))).log ≡ []
close_old_lem s h = close_conn_lem _ (close_channel_lem _ (close_pool_lem _ h))

-- To split on how a round ends, and keep the equation.
pub Ending-cases : (e : Ending) → (e ≡ again) ⊎ (e ≡ stopped) ⊎ (e ≡ reconnected)
Ending-cases again = inl refl
Ending-cases stopped = inr (inl refl)
Ending-cases reconnected = inr (inr refl)
