-- ===== src/Reconnect/Replay.antt =====
-- What `reconnect` leaves behind, in one round and in the whole loop.
use huma.Base.{ℕ, ◌≡◌, inl, inr, refl, List, [], ◌∷◌, Bool-cases}
use huma.Go.Result.{Result-cases}
use huma.Reconnect.{
  Step, dialed, Fixed, State, Round, Ending, log_of, replace_channel, replace_conn, round,
  reconnect,
}
use huma.Reconnect.Resources.{
  IsHeld, Sound, open_conns, wait-Sound, closed-IsHeld, close_old_lem, Ending-cases,
}
use huma.Reconnect.Stages.{IsLive, replayed, IsReplayed, qos-Sound}

module _ (f : Fixed) where
  -- What is in place for one connection and channel is a success of the round.
  replayed-Sound :
      (c ch : ℕ) (l : List Step) (es : Ending × State)
      → Sound (IsLive f.publisher_pool_size c ch (replayed f c ch l)) es
      → Sound (IsReplayed f) es
  replayed-Sound c ch l (e, s) (h, live) = (h, λ fine. (c, ch, l, live fine))

  channel-Sound :
      (r : Round) (c : ℕ) (s : State)
      → open_conns s.log ≡ []
      → Sound (IsReplayed f) (replace_channel f r c (log_of (dialed c) s))
  unfolding replace_channel
  channel-Sound r c s h = elim (Result-cases r.open_channel) [
    | inl (ch, fine) ↦
        simp (replace_channel, fine)
          (replayed-Sound c ch s.log _ (
            qos-Sound r c ch f f.qos_configured _ (record { held = refl; open_alone = rw h refl })
              refl))
    | inr (e, bad) ↦
        simp (replace_channel, bad)
          (wait-Sound (IsReplayed f) r _ (closed-IsHeld c (log_of (dialed c) s) (rw h refl)))
  ]

  conn-Sound :
      (r : Round) (s : State) → open_conns s.log ≡ [] → Sound (IsReplayed f) (replace_conn f r s)
  unfolding replace_conn
  conn-Sound r s h = elim (Result-cases r.dial) [
    | inr (e, bad) ↦ simp (replace_conn, bad) (wait-Sound (IsReplayed f) r s (inl h))
    | inl (c, fine) ↦ elim (Bool-cases r.canceled) [
      | inl late ↦
          simp (replace_conn, fine, late)
            (closed-IsHeld c (log_of (dialed c) s) (rw h refl), λ e. cc)
      | inr going ↦ simp (replace_conn, fine, going) (channel-Sound r c s h)
    ]
  ]

  pub round-Sound : (r : Round) (s : State) → IsHeld s → Sound (IsReplayed f) (round f r s)
  unfolding round
  round-Sound r s h = elim (Bool-cases r.done) [
    | inl done ↦ simp (round, done) (h, λ e. cc)
    | inr going ↦ simp (round, going) (conn-Sound r _ (close_old_lem s h))
  ]

  -- However its rounds are answered, `reconnect` leaves no connection open but the one that the SDK
  -- holds. If it ends with a success, the SDK holds an open connection, a channel of it and an open
  -- publisher pool of the asked size, and the last round's log is exactly: the connection dialed,
  -- the channel opened, its Qos set if it was configured, every kept queue declared, the consumers of
  -- every started queue started, and as the last step the monitor of that connection and channel.
  pub reconnect-Sound :
      (rounds : List Round) (s : State) → IsHeld s → Sound (IsReplayed f) (reconnect f rounds s)
  unfolding reconnect
  reconnect-Sound [] s h = (h, λ e. cc)
  reconnect-Sound (r ∷ rest) s h = elim (Ending-cases (round f r s).0) [
    | inl more ↦ rw (reconnect, more) (reconnect-Sound rest _ (round-Sound r s h).0)
    | inr (inl over) ↦ rw (reconnect, over) ((round-Sound r s h).0, λ e. cc)
    | inr (inr fine) ↦ rw (reconnect, fine) ((round-Sound r s h).0, λ _. (round-Sound r s h).1 fine)
  ]
