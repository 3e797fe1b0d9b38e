-- ===== src/Connection/Raw/Tests.antt =====
-- Two connections, between which a dial fails; a publish gives up on the pool of the first one.
use huma.Base.{◌≡◌, ◌≤◌, refl, List, [], ◌∷◌, some, get_elem?}
use huma.Go.Errors.{external}
use huma.Shutdown.Tests.{idle_socket}
use huma.Connection.Raw.{
  RawPool, unreached, refused, established, Move, connects, gives_up, move, moves,
}
use huma.Connection.Raw.Owned.{closes, interrupts, none_dialed, moves-AreOwned}

abbrev usage : List Move
usage =
    connects (established 4)
    ∷ connects (unreached (external 1))
    ∷ connects (refused (external 2))
    ∷ connects (established 5)
    ∷ gives_up 0 idle_socket
    ∷ []

abbrev second_pool : RawPool
second_pool = record { conn = record { number = 5; socket = 2 }; raw_conn = some 2 }

second_found : get_elem? (moves none_dialed usage).pools 1 ≡ some second_pool
unfolding moves move
second_found = refl

moves-AreOwned_example :
    (second_pool.raw_conn ≡ some 2)
    × (closes 2 (moves none_dialed usage).state.log ≤ interrupts 1 usage)
moves-AreOwned_example = moves-AreOwned usage 1 second_pool second_found
