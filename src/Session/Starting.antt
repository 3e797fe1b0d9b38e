-- ===== src/Session/Starting.antt =====
-- `Start` (rabbitmqsdk.go), called by any number of goroutines, beside the runs of `reconnect`. The
-- SDK's mutex is held while the queues are kept, and again for each call of `Consume`, and is free in
-- between; `reconnect` holds it throughout. The workers of a queue are started after the mutex is
-- given up, but they receive from their own consumer only, so they belong to the step of `Consume`.
pub mod Counts
pub mod Workers
pub mod Overtaken
mod Tests
use mathlib.Core.List.{◌++◌ as append}
use huma.Base.{ℕ, Bool, true, false, List, [], ◌∷◌, Option, none, some, get_elem?, set}
use huma.Go.Errors.{Error}
use huma.Go.Result.{Result, ok, err, ◌>>=◌, ◌>>◌}
use huma.Go.Exec.{nil_or}
use huma.Config.Queue.{QueueConfig}
use huma.Start.{Call, check_queues, start_queue, start_with_store_queues_flag}
use huma.Session.{Context, validate_context}

-- Where a call of `Start` stands: before its checks, with its context, the error of that context
-- when it is read again, and its queues; before the queues are kept; in the loop, with the queues
-- that are left; returned nil; or returned an error, with the queues that it did not start.
pub data Pc : Type 0 where
  entering : Context → Option Error → List QueueConfig → Pc
  storing starting : List QueueConfig → Pc
  finished : Pc
  failed : Error → List QueueConfig → Pc

-- The queues that the SDK keeps, the calls on the consume channel that it has now, and whether the
-- round that opened this channel has started the consumers of all queues kept at that time.
pub record Shared : Type 0 where
  pub kept : List QueueConfig
  pub calls : List Call
  pub is_replayed : Bool

-- After the checks, and after `Consume` for the first of the queues that are left.
abbrev pub checked : List QueueConfig → Result (Unit {0}) → Pc
checked queues (ok _) = storing queues
checked queues (err e) = failed e []

abbrev pub consumed : QueueConfig → List QueueConfig → Result (Unit {0}) → Pc
consumed q qs (ok _) = starting qs
consumed q qs (err e) = failed e (q ∷ qs)

-- One step of a call, by the answers of `Consume`.
unfoldable pub work : (List Call → QueueConfig → Option Error) → Pc → Shared → Pc × Shared
work refused (entering ctx context queues) w =
    (checked queues (nil_or (validate_context ctx) >> (nil_or context >> check_queues queues)), w)
work refused (storing queues) w = (starting queues, record w { kept = append w.kept queues })
work refused (starting []) w = (finished, w)
work refused (starting (q ∷ qs)) w =
    let (r, l) = start_queue refused q w.calls in (consumed q qs r, record w { calls = l })
work refused finished w = (finished, w)
work refused (failed e qs) w = (failed e qs, w)

abbrev pub is_ok : Result (Unit {0}) → Bool
is_ok (ok _) = true
is_ok (err _) = false

-- The consumers that a round of `reconnect` starts on its new channel, if len(s.queues) > 0, and
-- whether it can go on: startWithStoreQueuesFlag(ctx, s.queues, false, true).
unfoldable pub restart :
    Option Error → (List Call → QueueConfig → Option Error) → List QueueConfig → Bool × List Call
restart context refused [] = (true, [])
restart context refused (q ∷ rest) =
    let qs = q ∷ rest in
    let (r, _, l) = start_with_store_queues_flag refused context qs false qs [] in (is_ok r, l)

pub data Move : Type 0 where
  worked : ℕ → (List Call → QueueConfig → Option Error) → Move
  reconnected : Option Error → (List Call → QueueConfig → Option Error) → Move

pub record System : Type 0 where
  pub shared : Shared
  pub starters : List Pc

unfoldable pub step_of : (List Call → QueueConfig → Option Error) → ℕ → System → Option Pc → System
unfolding work
step_of refused i y none = y
step_of refused i y (some pc) =
    let (pc', w) = work refused pc y.shared in
    record { shared = w; starters = set y.starters i pc' }

unfoldable pub move : System → Move → System
unfolding step_of restart
move y (worked i refused) = step_of refused i y (get_elem? y.starters i)
move y (reconnected context refused) =
    let (fine, l) = restart context refused y.shared.kept in
    record y { shared = record y.shared { calls = l; is_replayed = fine } }

unfoldable pub moves : System → List Move → System
unfolding move
moves y [] = y
moves y (m ∷ ms) = moves (move y m) ms

-- An SDK that `NewSDK` returned, on its first channel.
abbrev pub begin : List Pc → System
begin starters = record {
  shared = record { kept = []; calls = []; is_replayed = true };
  starters = starters;
}
