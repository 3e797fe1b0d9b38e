-- ===== src/Publisher/Solo.antt =====
-- One call of `publishAMQP` from its beginning to its end, as the other modules take it: the steps of
-- its goroutine, on the pool as it finds it.
pub mod Laws
use huma.Base.{ℕ, ◌+◌, ◌≤◌, ◌≡◌, refl, true, List, [], ◌∷◌, ◌++◌, Option, some, String, arith}
use huma.Go.Errors.{Error, pool_unavailable}
use huma.Amqp.{Publishing, Event}
use huma.Pool.{Pool, World}
use huma.Publisher.{Reply, Job, Pc, act, entering, finished}
use huma.Publisher.Accounting.{IsSound, holds, holds_lock, panics, act-IsSound}
use huma.Publisher.Progress.{
  rank, is_publisher, is_finished, IsExpired, AllExpired, drive, drive_finishes,
}

-- The environment of the calls, each by the log at its begin: the pool that it finds, what it is
-- answered while its contexts live, and the nine answers after they are done with the error `cause`.
pub record Turns : Type 0 where
  pub pool : List Event → Pool
  pub replies : List Event → List Reply
  pub last : List Event → Reply
  pub cause : Error

abbrev pub expired : Error → Reply → Reply
expired e r = record r { ctx = some e; wait_ctx = some e }

abbrev pub nine : Reply → List Reply
nine r = r ∷ r ∷ r ∷ r ∷ r ∷ r ∷ r ∷ r ∷ r ∷ []

abbrev pub all_replies : Turns → List Event → List Reply
all_replies t l = t.replies l ++ nine (expired t.cause (t.last l))

-- The last line is for a call that has not come back, which `call_returns` excludes.
returned : Pc × World → Option Error × List Event
returned (finished e, w) = (e, w.log)
returned (_, w) = (some pool_unavailable, w.log)

abbrev pub job_of : String → String → Publishing → Job
job_of x k p = record { exchange = x; routing_key = k; publishing = p }

-- Where the goroutine of a call stands after all its steps.
unfoldable pub call : Turns → List Event → Job → Pc × World
call t l j = drive (all_replies t l) j entering (record { pool = t.pool l; log = l })

unfoldable pub publish_amqp :
    Turns → List Event → String → String → Publishing → Option Error × List Event
unfolding returned call
publish_amqp t l x k p = returned (call t l (job_of x k p))

drive-append :
    (rs ts : List Reply) (j : Job) (pc : Pc) (w : World)
    → drive (rs ++ ts) j pc w ≡ drive ts j (drive rs j pc w).0 (drive rs j pc w).1
unfolding drive
drive-append [] ts j pc w = refl
drive-append (r ∷ rs) ts j pc w = drive-append rs ts j (act r j pc w).0 (act r j pc w).1

act-is_publisher :
    (r : Reply) (j : Job) (pc : Pc) (w : World) (held : ℕ)
    → is_publisher pc ≡ true
    → IsSound w.pool (held + holds pc) (0 + holds_lock pc) (0 + panics pc)
    → is_publisher (act r j pc w).0 ≡ true
unfolding act
act-is_publisher r j entering w held p h = ground arith
act-is_publisher r j _ w held p h = ground arith

-- A publisher on a sound pool, with room for its own channel among those held.
abbrev pub Stands : ℕ → Pc × World → Type 0
Stands held (pc, w) =
    (is_publisher pc ≡ true) × IsSound w.pool (held + holds pc) (0 + holds_lock pc) (0 + panics pc)

drive-Stands :
    (rs : List Reply) (j : Job) (pc : Pc) (w : World) (held : ℕ)
    → Stands held (pc, w)
    → Stands held (drive rs j pc w)
unfolding drive
drive-Stands [] j pc w held h = h
drive-Stands (r ∷ rs) j pc w held h =
    drive-Stands rs j (act r j pc w).0 (act r j pc w).1 held
      (act-is_publisher r j pc w held h.0 h.1, act-IsSound r j pc w held 0 0 h.1)

rank_bound : (pc : Pc) → rank pc ≤ 9
rank_bound entering = omega arith
rank_bound _ = omega arith

expired-IsExpired : (e : Error) (r : Reply) → IsExpired (expired e r)
expired-IsExpired e r = (λ h. cc, λ h. cc)

nine-AllExpired : (r : Reply) → IsExpired r → AllExpired (nine r)
nine-AllExpired r h = (h, (h, (h, (h, (h, (h, (h, (h, (h, tt)))))))))

begins : (p : Pool) (held : ℕ) → IsSound p held 0 0 → IsSound p (held + 0) (0 + 0) (0 + 0)
begins p held h = ground (arith, h)

-- A call that finds a sound pool whose mutex is free comes back: whatever it is answered while its
-- contexts live, it has finished after at most nine of its own steps once they are done.
pub call_returns :
    (t : Turns) (l : List Event) (j : Job) (held : ℕ)
    → IsSound (t.pool l) held 0 0
    → is_finished (call t l j).0 ≡ true
unfolding call
call_returns t l j held h =
    let w : World = record { pool = t.pool l; log = l } in
    let r = expired t.cause (t.last l) in
    let half = drive (t.replies l) j entering w in
    let (still, sound) =
      drive-Stands (t.replies l) j entering w held (refl, begins (t.pool l) held h) in
    rw (drive-append (t.replies l) (nine r) j entering w) (
      drive_finishes (nine r) j half.0 half.1 held 0
        (nine-AllExpired r (expired-IsExpired t.cause (t.last l))) still sound (rank_bound half.0))
