-- ===== src/Reconnect/Counting.antt =====
-- What `reconnects_total` counts.
use huma.Base.{arith, ℕ, suc, ◌≡◌, refl, Bool, true, false, List, [], ◌∷◌, none, ◌≢◌}
use huma.Go.Errors.{Error}
use huma.Go.Result.{ok, err}
use huma.Config.Queue.{QueueConfig}
use huma.Pool.{new_publisher_channel_pool}
use huma.Topology.{declare_queues_locked}
use huma.Start.{start_with_store_queues_flag}
use huma.Reconnect.{
  Step, reconnects_inc, Fixed, State, Round, Ending, again, wait_reconnect, close_old_pool,
  close_old_channel, close_old_conn, restart_consumers, replace_pool, replay_topology, replay_qos,
  replace_channel, replace_conn, round,
}

abbrev pub reconnects : List Step → ℕ
reconnects [] = 0
reconnects (reconnects_inc ∷ l) = suc (reconnects l)
reconnects (_ ∷ l) = reconnects l

-- Every call of the round succeeds but that which starts the consumers, and the timer fires.
pub record IsUnstarted (f : Fixed) (r : Round) : Type 0 where
  pub alive : r.done ≡ false
  pub conn : ℕ
  pub dialing : r.dial ≡ ok conn
  pub still_alive : r.canceled ≡ false
  pub channel : ℕ
  pub opening : r.open_channel ≡ ok channel
  pub setting : r.qos ≡ none
  pub declaring :
      (declare_queues_locked r.server f.declared_queues false f.declared_queues []).0 ≡ ok tt
  pub pooling :
      (new_publisher_channel_pool r.broker f.publisher_pool_size f.publisher_max_pool_size []).0
      ≡ none
  pub cause : Error
  pub starting :
      (start_with_store_queues_flag r.consume_refused r.context f.queues false f.queues []).0
      ≡ err cause
  pub some_queue : f.queues ≢ []
  pub waits : r.timer_fired ≡ true

-- The round is repeated, and the log counts `n` reconnects.
abbrev Repeats : ℕ → Ending × State → Type 0
Repeats n (e, s) = (e ≡ again) × (reconnects s.log ≡ n)

module _ (r : Round) (ch c : ℕ) where
  restart-Repeats :
      (qs : List QueueConfig) (e : Error) (s : State)
      → qs ≢ []
      → (start_with_store_queues_flag r.consume_refused r.context qs false qs []).0 ≡ err e
      → r.timer_fired ≡ true
      → Repeats (reconnects s.log) (restart_consumers qs r ch c s)
  unfolding restart_consumers wait_reconnect
  restart-Repeats [] e s some_queue h w = absurd (some_queue refl)
  restart-Repeats (q ∷ rest) e s some_queue h w =
      simp (restart_consumers, h, wait_reconnect, w) (refl, refl)

  pool-Repeats :
      (f : Fixed) (s : State)
      → IsUnstarted f r
      → Repeats (suc (reconnects s.log)) (replace_pool f r ch c s)
  unfolding replace_pool
  pool-Repeats f s h =
      rw (replace_pool, h.pooling)
        (restart-Repeats f.queues h.cause _ h.some_queue h.starting h.waits)

  topology-Repeats :
      (f : Fixed) (qs : List QueueConfig) (s : State)
      → (declare_queues_locked r.server qs false qs []).0 ≡ ok tt
      → IsUnstarted f r
      → Repeats (suc (reconnects s.log)) (replay_topology f qs r ch c s)
  unfolding replay_topology
  topology-Repeats f [] s d h = pool-Repeats f s h
  topology-Repeats f (q ∷ rest) s d h = rw (replay_topology, d) (pool-Repeats f _ h)

  qos-Repeats :
      (f : Fixed) (b : Bool) (s : State)
      → IsUnstarted f r
      → Repeats (suc (reconnects s.log)) (replay_qos f b r ch c s)
  unfolding replay_qos
  qos-Repeats f false s h = topology-Repeats f f.declared_queues s h.declaring h
  qos-Repeats f true s h =
      simp (replay_qos, h.setting) (topology-Repeats f f.declared_queues _ h.declaring h)

-- Closing the old pool, channel and connection counts nothing.
close_old-reconnects :
    (s : State)
    → reconnects (close_old_conn (close_old_channel (close_old_pool s))).log ≡ reconnects s.log
unfolding close_old_conn close_old_channel close_old_pool
close_old-reconnects s = ground arith

-- A round in which everything succeeds but the start of the consumers, of which there are some,
-- counts a reconnect, and is then repeated if the wait runs out: `reconnects_total` counts more than
-- the successful reconnects.
pub round_counts_unstarted :
    (f : Fixed) (r : Round) (s : State)
    → IsUnstarted f r
    → ((round f r s).0 ≡ again) × (reconnects (round f r s).1.log ≡ suc (reconnects s.log))
unfolding round replace_conn replace_channel
round_counts_unstarted f r s h = rw (← close_old-reconnects s) (
    simp (round, replace_conn, replace_channel, h.alive, h.dialing, h.still_alive, h.opening)
      (qos-Repeats r h.channel h.conn f f.qos_configured _ h))
