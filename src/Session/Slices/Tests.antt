-- ===== src/Session/Slices/Tests.antt =====
-- An application that starts its first queue, writes over it in its array, and starts both.
use huma.Base.{◌≡◌, refl, true, List, [], ◌∷◌}
use huma.Config.Tests.{orders, delayed}
use huma.Session.Slices.{
  Memory, Slice, read, clone_queue_configs, keep_queues, keep_declared_queues, Move, written,
  start_keeps, declare_keeps, write, move, moves,
}
use huma.Session.Slices.Kept.{begin, all_to_start, all_to_declare, moves-AreKept}

abbrev one_array : Memory
one_array = record { is_app = true; items = orders ∷ orders ∷ [] } ∷ []

abbrev first_of : Slice
first_of = record { array = 0; from = 0; len = 1; cap = 2 }

abbrev both_of : Slice
both_of = record { array = 0; from = 0; len = 2; cap = 2 }

abbrev usage : List Move
usage =
    start_keeps first_of []
    ∷ written 0 0 delayed
    ∷ start_keeps both_of (delayed ∷ delayed ∷ [])
    ∷ start_keeps first_of []
    ∷ declare_keeps both_of []
    ∷ []

usage_given : all_to_start (begin one_array) usage ≡ orders ∷ delayed ∷ orders ∷ delayed ∷ []
unfolding move keep_queues keep_declared_queues clone_queue_configs write
usage_given = refl

moves-AreKept_example :
    let h = moves (begin one_array) usage in
    (read h.memory h.queues ≡ all_to_start (begin one_array) usage)
    × (read h.memory h.declared_queues ≡ all_to_declare (begin one_array) usage)
moves-AreKept_example = moves-AreKept one_array usage
