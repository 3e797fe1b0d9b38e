-- ===== src/Config/Queue/Validity.antt =====
-- What `QueueConfig.validate` accepts.
use huma.Base.{
  ◌≡◌, ◌≢◌, ◌⊎◌, ◌↔◌, true, false, not, ◌&&◌, arith, str_eq, eq_iff, pos, negsuc, ◌≤ℤ◌, ◌<ℤ◌, ltb_ℤ,
}
use huma.Go.Result.{ok}
use huma.Go.Duration.{milliseconds}
use huma.Config.Queue.{
  QueueConfig, classic, quorum, delay_dlx_ttl, validate, validate_quorum, validate_delay,
}

pub record IsQuorumReady (q : QueueConfig) : Type 0 where
  pub kept : q.durable ≡ true
  pub not_deleted : q.auto_delete ≡ false
  pub shared : q.exclusive ≡ false

pub record IsDelayReady (q : QueueConfig) : Type 0 where
  pub has_exchange : q.exchange ≢ ""
  pub known_strategy : q.delay_strategy ≡ delay_dlx_ttl
  pub ttl_positive : pos 0 <ℤ q.dlx_ttl
  pub ttl_in_int32 : milliseconds q.dlx_ttl ≤ℤ pos 2147483647

pub record IsWellFormed (q : QueueConfig) : Type 0 where
  pub named : q.name ≢ ""
  pub known_type : (q.queue_type ≡ "") ⊎ (q.queue_type ≡ classic) ⊎ (q.queue_type ≡ quorum)
  pub redelivery : negsuc 0 ≤ℤ q.max_redelivery
  pub frequency : pos 0 ≤ℤ q.dummy_message_frequency
  pub quorum_ready : q.queue_type ≡ quorum → IsQuorumReady q
  pub delay_ready : q.is_delay_queue ≡ true → IsDelayReady q

quorum_iff :
    (q : QueueConfig) → (validate_quorum q ≡ ok tt) ↔ (q.queue_type ≡ quorum → IsQuorumReady q)
unfolding validate_quorum
quorum_iff q = (
  λ h e. record {
    kept = ground (arith, eq_iff q.queue_type quorum);
    not_deleted = ground (arith, eq_iff q.queue_type quorum);
    shared = ground (arith, eq_iff q.queue_type quorum);
  },
  λ h. ground (arith, eq_iff q.queue_type quorum),
)

delay_iff :
    (q : QueueConfig) → (validate_delay q ≡ ok tt) ↔ (q.is_delay_queue ≡ true → IsDelayReady q)
unfolding validate_delay
delay_iff q = (
  λ h e. record {
    has_exchange = ground (arith, eq_iff q.exchange "");
    known_strategy = ground arith;
    ttl_positive = ground arith;
    ttl_in_int32 = ground arith;
  },
  λ h. ground (arith, eq_iff q.exchange ""),
)

tests_iff :
    (q : QueueConfig)
    → ((str_eq q.name "" ≡ false)
        × ((not (str_eq q.queue_type "")
              && not (str_eq q.queue_type classic)
              && not (str_eq q.queue_type quorum))
            ≡ false)
        × (ltb_ℤ q.max_redelivery (negsuc 0) ≡ false)
        × (ltb_ℤ q.dummy_message_frequency (pos 0) ≡ false))
      ↔ ((q.name ≢ "")
          × ((q.queue_type ≡ "") ⊎ (q.queue_type ≡ classic) ⊎ (q.queue_type ≡ quorum))
          × (negsuc 0 ≤ℤ q.max_redelivery)
          × (pos 0 ≤ℤ q.dummy_message_frequency))
tests_iff q = (
  λ h. ground (
    arith,
    eq_iff q.name "",
    eq_iff q.queue_type "",
    eq_iff q.queue_type classic,
    eq_iff q.queue_type quorum,
  ),
  λ h. ground (
    arith,
    eq_iff q.name "",
    eq_iff q.queue_type "",
    eq_iff q.queue_type classic,
    eq_iff q.queue_type quorum,
  ),
)

-- Both directions are a walk along the chain of tests.
accepted_parts :
    (q : QueueConfig)
    → validate q ≡ ok tt
    → (validate_quorum q ≡ ok tt) × (validate_delay q ≡ ok tt)
unfolding validate
accepted_parts q h = ground arith

accepted_tests :
    (q : QueueConfig)
    → validate q ≡ ok tt
    → (str_eq q.name "" ≡ false)
      × ((not (str_eq q.queue_type "")
            && not (str_eq q.queue_type classic)
            && not (str_eq q.queue_type quorum))
          ≡ false)
      × (ltb_ℤ q.max_redelivery (negsuc 0) ≡ false)
      × (ltb_ℤ q.dummy_message_frequency (pos 0) ≡ false)
unfolding validate
accepted_tests q h = (ground arith, ground arith, ground arith, ground arith)

-- A queue's configuration is accepted exactly when it is well formed. The delay of a delay queue need
-- only be positive for this, one nanosecond say, although the error for a delay that is refused says
-- that it must be one millisecond at least.
pub validate_iff : (q : QueueConfig) → (validate q ≡ ok tt) ↔ IsWellFormed q
unfolding validate
validate_iff q = (
  λ h.
      let t = (tests_iff q).0 (accepted_tests q h) in
      record {
        named = t.0;
        known_type = t.1;
        redelivery = t.2;
        frequency = t.3;
        quorum_ready = (quorum_iff q).0 (accepted_parts q h).0;
        delay_ready = (delay_iff q).0 (accepted_parts q h).1;
      },
  λ h.
      let t = (tests_iff q).1 (h.named, h.known_type, h.redelivery, h.frequency) in
      rw (t.0, t.1, t.2, t.3, (quorum_iff q).1 h.quorum_ready, (delay_iff q).1 h.delay_ready),
)
