-- ===== src/Lifecycle/Schedule.antt =====
-- The life of an SDK as its callers of `Shutdown` see it.
use mathlib.Core.Path.{subst}
use huma.Base.{sym, ◌≡◌, ◌≢◌, inl, inr, refl, ◌∙◌, ap, List, [], ◌∷◌, ◌++◌}
use huma.Shutdown.{
  System, stepped, goroutine_ended, goroutine_started, worker_added, reconnected, pool_moved, move,
  moves, Move as ShutdownMove,
}
use huma.Shutdown.Closing.{AllTimely}
use huma.Reconnect.{reconnect}
use huma.Lifecycle.{
  Life, Move, called, reconnects, shut, ended, started, added, pooled, reconnect_state, live, lives,
}
use huma.Lifecycle.Held.{run-cases}

-- `Start` starts no worker when no goroutine of the SDK runs any more.
abbrev pub IsTimely : Move → Life → Type 0
IsTimely added y = y.system.sdk.running ≢ 0
IsTimely _ y = Unit {0}

abbrev pub AreTimely : Life → List Move → Type 0
AreTimely y [] = Unit {0}
AreTimely y (m ∷ ms) = IsTimely m y × AreTimely (live y m) ms

-- For the callers of `Shutdown`, a life is a schedule of Shutdown.
abbrev pub IsMoved : System → System → Type 0
IsMoved s t = (ms : List ShutdownMove) × (t ≡ moves s ms) × AllTimely s ms

live-IsMoved : (y : Life) (m : Move) → IsTimely m y → IsMoved y.system (live y m).system
unfolding live moves
live-IsMoved y (called c) timely = ([], refl, tt)
live-IsMoved y (reconnects rounds) timely = elim (run-cases rounds y) [
  | inl same ↦ ([], ap (λ z. z.system) same, tt)
  | inr (n, going, same) ↦
      let s = (reconnect y.fixed rounds (reconnect_state y)).1 in
      (reconnected s.conn s.channel s.publisher_pool ∷ [], ap (λ z. z.system) same, (tt, tt))
]
live-IsMoved y (shut i r) timely = (stepped i r ∷ [], refl, (tt, tt))
live-IsMoved y ended timely = (goroutine_ended ∷ [], refl, (tt, tt))
live-IsMoved y started timely = (goroutine_started ∷ [], refl, (tt, tt))
live-IsMoved y added timely = (worker_added ∷ [], refl, (timely, tt))
live-IsMoved y (pooled p) timely = (pool_moved p ∷ [], refl, (tt, tt))

moves-append : (s : System) (ms ns : List ShutdownMove) → moves s (ms ++ ns) ≡ moves (moves s ms) ns
unfolding moves
moves-append s [] ns = refl
moves-append s (m ∷ ms) ns = moves-append (move s m) ms ns

AllTimely-append :
    (s : System) (ms ns : List ShutdownMove)
    → AllTimely s ms
    → AllTimely (moves s ms) ns
    → AllTimely s (ms ++ ns)
unfolding moves
AllTimely-append s [] ns h k = k
AllTimely-append s (m ∷ ms) ns h k = (h.0, AllTimely-append (move s m) ms ns h.1 k)

pub lives-IsMoved :
    (y : Life) (ms : List Move) → AreTimely y ms → IsMoved y.system (lives y ms).system
unfolding lives moves
lives-IsMoved y [] timely = ([], refl, tt)
lives-IsMoved y (m ∷ ms) timely =
    let (first, e, t) = live-IsMoved y m timely.0 in
    let (rest, k, u) = lives-IsMoved (live y m) ms timely.1 in
    (
      first ++ rest,
      k ∙ ap (λ s. moves s rest) e ∙ sym (moves-append y.system first rest),
      AllTimely-append y.system first rest t (subst (λ s. AllTimely s rest) e u),
    )
