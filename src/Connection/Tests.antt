-- ===== src/Connection/Tests.antt =====
-- A socket that the dialer stores between the two steps of the shutdown.
use huma.Base.{ℕ, ◌≡◌, refl, false, List, [], ◌∷◌, none}
use huma.Go.Errors.{errors_join}
use huma.Go.Result.{ok}
use huma.Connection.{
  dialed, socket_closed, deadline_set, ConnectionState, Reply, dialing, canceling, Turn, dial_turn,
  stop_turn, Threads, turn, turns,
}
use huma.Connection.Interrupts.{dials, AllClosed, turns-AllClosed}

abbrev at : ℕ → Reply
at now = record {
  now = now;
  context_deadline = none;
  dial = ok 7;
  set_deadline = none;
  close_socket = none;
}

abbrev fresh : ConnectionState
fresh = record { conn = none; canceled = false; log = [] }

abbrev raced : List Turn
raced =
    dial_turn (at 1)
    ∷ dial_turn (at 2)
    ∷ stop_turn (at 3)
    ∷ dial_turn (at 4)
    ∷ stop_turn (at 5)
    ∷ dial_turn (at 6)
    ∷ dial_turn (at 7)
    ∷ []

abbrev after : Threads
after = turns 100 (record { dialer = dialing; stopper = canceling; state = fresh }) raced

after_log :
    after.state.log
    ≡ socket_closed 7
      ∷ deadline_set 7 7
      ∷ socket_closed 7
      ∷ deadline_set 7 5
      ∷ deadline_set 7 102
      ∷ dialed 7
      ∷ []
unfolding turns turn errors_join
after_log = refl

turns-AllClosed_example : AllClosed (dials after.state.log) after.state.log
unfolding turns turn errors_join
turns-AllClosed_example = turns-AllClosed 100 fresh raced (ok 7) none refl refl refl
