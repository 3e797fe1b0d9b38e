-- ===== src/Start.antt =====
-- rabbitmqsdk.go, `Start`: the queues that it checks and keeps, and the consumers that it starts
-- on the consume channel. The mutex and logging are left out.
pub mod Consumers
mod Tests
use huma.Base.{
  ℕ, zero, suc, Bool, true, false, String, List, [], ◌∷◌, Option, none, some, ℤ, pos, pos_part,
  leb_ℤ, ◌==ℤ◌, if◌then◌else◌,
}
use mathlib.Core.List.{◌++◌ as append}
use huma.Go.Errors.{Error, wrap, handler_required, workers_not_positive}
use huma.Go.Result.{Result, ok, err, refuse, ◌>>=◌, ◌>>◌}
use huma.Go.Exec.{Exec, nil_or, continue}
use huma.Go.Duration.{minute}
use huma.Config.Queue.{QueueConfig, validate}

-- s.channel.Consume with the queue, the consumer tag and its two flags; and a goroutine that runs
-- `consume` on its deliveries.
pub data Call : Type 0 where
  consume_called : String → String → Bool → Bool → Call
  worker_started : QueueConfig → Call

-- q.Handler == nil
abbrev pub has_no_handler : QueueConfig → Bool
has_no_handler q = elim q.handler [ none ↦ true | some _ ↦ false ]

-- One round of the first loop, and the loop.
unfoldable pub check_queue : QueueConfig → Result (Unit {0})
check_queue q = do
  validate q
  refuse (has_no_handler q) (handler_required q.name)
  refuse (leb_ℤ q.num_workers (pos 0)) (workers_not_positive q.name)
  ok tt

unfoldable pub check_queues : List QueueConfig → Result (Unit {0})
unfolding check_queue
check_queues [] = ok tt
check_queues (q ∷ qs) = check_queue q >> check_queues qs

-- if q.DummyMessageFrequency == 0 { q.DummyMessageFrequency = time.Minute }
abbrev pub with_frequency : QueueConfig → QueueConfig
with_frequency q =
    if q.dummy_message_frequency ==ℤ pos 0 then record q { dummy_message_frequency = minute } else q

-- The loop `for range q.NumWorkers`.
unfoldable pub start_workers : ℕ → QueueConfig → Exec (List Call) (Unit {0})
start_workers zero q l = (ok tt, l)
start_workers (suc n) q l = start_workers n q (worker_started q ∷ l)

-- By the calls made so far and the queue: the error of `Consume`.
module _ (refused : List Call → QueueConfig → Option Error) where
  unfoldable pub call_consume : QueueConfig → Exec (List Call) (Unit {0})
  call_consume q l =
      let l' = consume_called q.name q.consumer_tag q.exclusive q.no_wait ∷ l in
      elim (refused l q) [
        | none ↦ (ok tt, l')
        | some e ↦ (err (wrap "consume on rabbitmq channel encounter error" e), l')
      ]

  -- One round of the second loop, and the loop.
  unfoldable pub start_queue : QueueConfig → Exec (List Call) (Unit {0})
  unfolding call_consume start_workers
  start_queue q l =
      let r = with_frequency q in
      continue (call_consume r l) (λ _. start_workers (pos_part r.num_workers) r)

  unfoldable pub start_queues : List QueueConfig → Exec (List Call) (Unit {0})
  unfolding start_queue
  start_queues [] l = (ok tt, l)
  start_queues (q ∷ qs) l = continue (start_queue q l) (λ _. start_queues qs)

  -- After the checks, with the queues that the SDK keeps.
  unfoldable pub start_checked :
      List QueueConfig
      → Bool
      → List QueueConfig
      → List Call
      → Result (Unit {0})
      → Result (Unit {0}) × List QueueConfig × List Call
  start_checked queues store kept l (err e) = (err e, kept, l)
  start_checked queues store kept l (ok tt) =
      let (r, l') = start_queues queues l in (r, if store then append kept queues else kept, l')

  -- The context's error comes first. A clone of a list is the list.
  unfoldable pub start_with_store_queues_flag :
      Option Error
      → List QueueConfig
      → Bool
      → List QueueConfig
      → List Call
      → Result (Unit {0}) × List QueueConfig × List Call
  unfolding check_queues start_checked start_queues
  start_with_store_queues_flag context queues store kept l =
      start_checked queues store kept l (nil_or context >> check_queues queues)
