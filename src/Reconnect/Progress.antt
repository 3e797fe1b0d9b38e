-- ===== src/Reconnect/Progress.antt =====
-- When `reconnect` stops going round.
use huma.Base.{ℕ, ◌≡◌, refl, Bool, true, false, List, [], ◌∷◌, ◌++◌, none, ◌⊎◌, inl, inr}
use huma.Go.Result.{ok}
use huma.Config.Queue.{QueueConfig}
use huma.Pool.{new_publisher_channel_pool}
use huma.Topology.{declare_queues_locked}
use huma.Start.{start_with_store_queues_flag}
use huma.Reconnect.{
  Fixed, State, Round, stopped, reconnected, finish, restart_consumers, replace_pool,
  replay_topology, replay_qos, replace_channel, replace_conn, round, reconnect,
}
use huma.Reconnect.Resources.{Ending-cases}

-- Every call of the round succeeds, and the context is not done.
pub record IsAnswered (f : Fixed) (r : Round) : Type 0 where
  pub alive : r.done ≡ false
  pub conn : ℕ
  pub dialing : r.dial ≡ ok conn
  pub still_alive : r.canceled ≡ false
  pub channel : ℕ
  pub opening : r.open_channel ≡ ok channel
  pub setting : r.qos ≡ none
  pub declaring :
      (declare_queues_locked r.server f.declared_queues false f.declared_queues []).0 ≡ ok tt
  pub pooling :
      (new_publisher_channel_pool r.broker f.publisher_pool_size f.publisher_max_pool_size []).0
      ≡ none
  pub starting :
      (start_with_store_queues_flag r.consume_refused r.context f.queues false f.queues []).0
      ≡ ok tt

module _ (r : Round) (ch c : ℕ) where
  restart_succeeds :
      (qs : List QueueConfig) (s : State)
      → (start_with_store_queues_flag r.consume_refused r.context qs false qs []).0 ≡ ok tt
      → (restart_consumers qs r ch c s).0 ≡ reconnected
  unfolding restart_consumers finish
  restart_succeeds [] s h = refl
  restart_succeeds (q ∷ rest) s h = rw (restart_consumers, h) refl

  pool_succeeds :
      (f : Fixed) (s : State) → IsAnswered f r → (replace_pool f r ch c s).0 ≡ reconnected
  unfolding replace_pool
  pool_succeeds f s h = rw (replace_pool, h.pooling) (restart_succeeds f.queues _ h.starting)

  topology_succeeds :
      (f : Fixed) (qs : List QueueConfig) (s : State)
      → (declare_queues_locked r.server qs false qs []).0 ≡ ok tt
      → IsAnswered f r
      → (replay_topology f qs r ch c s).0 ≡ reconnected
  unfolding replay_topology
  topology_succeeds f [] s d h = pool_succeeds f s h
  topology_succeeds f (q ∷ rest) s d h = rw (replay_topology, d) (pool_succeeds f _ h)

  qos_succeeds :
      (f : Fixed) (b : Bool) (s : State)
      → IsAnswered f r
      → (replay_qos f b r ch c s).0 ≡ reconnected
  unfolding replay_qos
  qos_succeeds f false s h = topology_succeeds f f.declared_queues s h.declaring h
  qos_succeeds f true s h =
      simp (replay_qos, h.setting) (topology_succeeds f f.declared_queues _ h.declaring h)

module _ (f : Fixed) where
  round_succeeds : (r : Round) (s : State) → IsAnswered f r → (round f r s).0 ≡ reconnected
  unfolding round replace_conn replace_channel
  round_succeeds r s h =
      simp (round, replace_conn, replace_channel, h.alive, h.dialing, h.still_alive, h.opening)
        (qos_succeeds r h.channel h.conn f f.qos_configured _ h)

  -- The loop goes round no further than the first round in which every call succeeds: whatever
  -- happened before, it then ends, with a success or because the context was done earlier.
  pub reconnect_ends :
      (before : List Round) (r : Round) (rest : List Round) (s : State)
      → IsAnswered f r
      → ((reconnect f (before ++ (r ∷ rest)) s).0 ≡ reconnected)
        ⊎ ((reconnect f (before ++ (r ∷ rest)) s).0 ≡ stopped)
  unfolding reconnect
  reconnect_ends [] r rest s h = rw (reconnect, round_succeeds r s h) (inl refl)
  reconnect_ends (b ∷ before) r rest s h = elim (Ending-cases (round f b s).0) [
    | inl more ↦ rw (reconnect, more) (reconnect_ends before r rest _ h)
    | inr (inl over) ↦ rw (reconnect, over) (inr refl)
    | inr (inr fine) ↦ rw (reconnect, fine) (inl refl)
  ]
