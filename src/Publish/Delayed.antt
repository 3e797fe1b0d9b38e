-- ===== src/Publish/Delayed.antt =====
-- `PublishWithDelayDLXTTL` on a queue that `DeclareQueues` has set up: where the message goes.
use mathlib.Core.List.{Memᴰ}
use mathlib.Core.Path.{subst}
use huma.Base.{
  ℕ, sym, ap, ◌∙◌, ◌≡◌, refl, inl, inr, true, false, String, List, Option, none, some, Option-cases,
}
use huma.Go.Errors.{Error}
use huma.Go.Result.{Result, ok, Result-cases}
use huma.Go.Table.{str, int32, lookup}
use huma.Go.Duration.{milliseconds}
use huma.Amqp.{Event}
use huma.Config.Queue.{QueueConfig}
use huma.Config.Queue.Validity.{IsWellFormed}
use huma.Message.{Message, validate}
use huma.Message.Building.{validate-IsReady}
use huma.Publisher.Confirmation.{IsConfirmed}
use huma.Publisher.Solo.{Turns, job_of}
use huma.Publish.{Client, publish, publish_with_delay_dlx_ttl, publishing_of, get_delay_queue_name}
use huma.Publish.Confirmed.{over, none-ne-some, publish_sends}
use huma.Topology.{queue_declare, queue_bind, effective_key, delay_args}
use huma.Topology.Plan.{plan}
use huma.Topology.Delay.{delay_path}

-- The message was accepted, and the broker has confirmed what was published of it.
abbrev pub IsAccepted : Client → String → Option Message → List Event → List Event → Type 0
IsAccepted c k msg l l' =
    (m : Message) × (validate (c.now l) msg ≡ ok m)
    × ((at : List Event) × IsConfirmed (job_of "" k (publishing_of c at m)) l')

-- Messages in the queue `k` come, once their time is out, to the exchange and with the key under
-- which the queue `q` is bound.
pub record IsRouted (k : String) (q : QueueConfig) : Type 0 where
  pub declared : Memᴰ (queue_declare k true false false false (some (delay_args q))) (plan q)
  pub bound : Memᴰ (queue_bind q.name (effective_key q) q.exchange) (plan q)
  pub ttl : lookup "x-message-ttl" (delay_args q) ≡ some (int32 (milliseconds q.dlx_ttl))
  pub exchange : lookup "x-dead-letter-exchange" (delay_args q) ≡ some (str q.exchange)
  pub key : lookup "x-dead-letter-routing-key" (delay_args q) ≡ some (str (effective_key q))

ok_inj : (a b : Message) (r : Result Message) → r ≡ ok a → r ≡ ok b → a ≡ b
ok_inj a b r h k = cc

-- A message that was accepted once is published as it is.
accepted_once :
    (now later : ℕ) (msg : Option Message) (m n : Message)
    → validate now msg ≡ ok m
    → validate later (some m) ≡ ok n
    → n ≡ m
unfolding validate
accepted_once now later none m n h k = cc
accepted_once now later (some o) m n h k =
    let (_, _, _, _, _, again, _) = validate-IsReady now later o h in
    ok_inj n m (validate later (some m)) k again

module _ (t : Turns) (c : Client) (q : QueueConfig) where
  delayed_sends :
      (msg : Option Message) (l : List Event)
      → (publish_with_delay_dlx_ttl (over t c) q.name msg l).0 ≡ none
      → IsAccepted
          (over t c)
          (get_delay_queue_name q.name)
          msg
          l
          (publish_with_delay_dlx_ttl (over t c) q.name msg l).1
  unfolding publish_with_delay_dlx_ttl
  delayed_sends msg l h = elim (Option-cases (c.context l)) [
    | inr (e, late) ↦
        absurd (none-ne-some {a = e} (sym h ∙ rw (publish_with_delay_dlx_ttl, late) refl))
    | inl live ↦ elim (Result-cases (validate (c.now l) msg)) [
      | inr (e, bad) ↦
          absurd (none-ne-some {a = e} (sym h ∙ rw (publish_with_delay_dlx_ttl, live, bad) refl))
      | inl (m, good) ↦
          let k = get_delay_queue_name q.name in
          let same : publish_with_delay_dlx_ttl (over t c) q.name msg l
              ≡ publish (over t c) "" k (some m) l =
            rw (publish_with_delay_dlx_ttl, live, good) refl in
          let (at, n, again, sent) =
            publish_sends t c "" k (some m) l
              (ap (λ (o : Option Error × List Event). o.0) (sym same) ∙ h) in
          rw same (
            m,
            good,
            (
              at,
              subst
                  (λ x.
                    IsConfirmed (job_of "" k (publishing_of (over t c) at x))
                      (publish (over t c) "" k (some m) l).1)
                  (accepted_once (c.now l) (c.now at) msg m n good again) sent,
            ),
          )
    ]
  ]

  -- When `PublishWithDelayDLXTTL` returns nil for a well-formed delay queue, the message was accepted,
  -- the broker has confirmed what is to be published of it, through the default exchange to the
  -- delay queue, and `DeclareQueues` plans that very queue, with the number of whole milliseconds in
  -- the delay (0 for a delay below one) as the time that a message stays in it, and then sends it to
  -- the exchange and key under which the queue `q` is bound.
  pub publish_with_delay_dlx_ttl-IsRouted :
      (msg : Option Message) (l : List Event)
      → IsWellFormed q
      → q.is_delay_queue ≡ true
      → (publish_with_delay_dlx_ttl (over t c) q.name msg l).0 ≡ none
      → IsAccepted
          (over t c)
          (get_delay_queue_name q.name)
          msg
          l
          (publish_with_delay_dlx_ttl (over t c) q.name msg l).1
        × IsRouted (get_delay_queue_name q.name) q
  publish_with_delay_dlx_ttl-IsRouted msg l fit delay h =
      let (declared, bound, ttl, exchange, key) = delay_path q fit delay in
      (
        delayed_sends msg l h,
        record { declared = declared; bound = bound; ttl = ttl; exchange = exchange; key = key },
      )
