-- ===== src/Delivery/Workers/Tests.antt =====
-- Two goroutines after the channel is closed: one ends at once, and the other takes what is left.
use huma.Base.{refl, true, List, [], ◌∷◌, arith, All, inr}
use huma.Config.Tests.{orders}
use huma.Delivery.Tests.{failing, first}
use huma.Delivery.Workers.{
  selecting, handling, context_done, message_received, work, Move, worked, System, step_of, move,
  moves,
}
use huma.Delivery.Workers.Ending.{AreEffective, IsStopped, moves_end}

abbrev closed_down : System
closed_down = record {
  shared = record { messages = first ∷ []; closed = true; log = [] };
  workers = selecting ∷ handling (record first { delivery_tag = 2 }) ∷ [];
}

abbrev last_steps : List Move
last_steps =
    worked 0 context_done
    ∷ worked 1 message_received
    ∷ worked 1 message_received
    ∷ worked 1 message_received
    ∷ worked 1 message_received
    ∷ worked 1 message_received
    ∷ worked 1 message_received
    ∷ worked 1 message_received
    ∷ worked 1 message_received
    ∷ []

last_steps-AreEffective : AreEffective failing 0 orders closed_down last_steps
unfolding move step_of work
last_steps-AreEffective = (
  inr (λ e. cc, tt),
  (
    inr (λ e. cc, tt),
    (
      inr (λ e. cc, tt),
      (
        inr (λ e. cc, tt),
        (
          inr (λ e. cc, tt),
          (inr (λ e. cc, tt), (inr (λ e. cc, tt), (inr (λ e. cc, tt), (inr (λ e. cc, tt), tt)))),
        ),
      ),
    ),
  ),
)

moves_end_example : All IsStopped (moves failing 0 orders closed_down last_steps).workers
moves_end_example =
    moves_end failing 0 orders closed_down last_steps refl last_steps-AreEffective (omega arith)
