-- ===== src/Lifecycle/Cleanup.antt =====
-- After a shutdown, every connection that the SDK ever dialed is closed.
use mathlib.Core.Path.{subst}
use huma.Base.{
  sym, ℕ, ◌≡◌, ◌⊎◌, inl, inr, refl, ◌∙◌, ap, List, [], ◌∷◌, ◌++◌, Option, none, some, All,
  get_elem?, remove, remove_all,
}
use huma.Go.Errors.{Error}
use huma.Connection.{ConnectionState}
use huma.Shutdown.{Pc, finished, moves}
use huma.Pool.{Pool}
use huma.Shutdown.Closing.{IsFresh, IsEntering, finished-IsClosed_once}
use huma.Shutdown.Orderly.{channel_steps, pool_steps, teardown}
use huma.Reconnect.Resources.{open_conns}
use huma.Go.Result.{ok}
use huma.Config.Sdk.{SdkConfig}
use huma.Metrics.{Registry}
use huma.Opening.Cleanup.{new_sdk-Outcome}
use huma.Opening.{
  monitored, channel_opened, dialed, Environment, new_sdk, Sdk as OpenedSdk, Step as OpeningStep,
}
use huma.Lifecycle.{conns_of, Life, begin, Move, reconnect_state, lives, open_now, shut_conns}
use huma.Lifecycle.Held.{IsSafe, lives-IsSafe}
use huma.Lifecycle.Schedule.{AreTimely, lives-IsMoved}

rest_lem :
    (ch : Option ℕ) (p : Option Pool) (cs : List ℕ)
    → shut_conns (channel_steps ch ++ (pool_steps p ++ [])) cs ≡ cs
rest_lem none none cs = refl
rest_lem none (some p) cs = refl
rest_lem (some ch) none cs = refl
rest_lem (some ch) (some p) cs = refl

-- A shutdown closes the connection that the SDK holds, and no other is open.
shut_lem :
    (c : Option ℕ) (ch : Option ℕ) (p : Option Pool) (cs : List ℕ)
    → (cs ≡ []) ⊎ ((k : ℕ) × (c ≡ some k) × (cs ≡ k ∷ []))
    → shut_conns (teardown c ch p) cs ≡ []
shut_lem none ch p cs (inl empty) = rest_lem ch p cs ∙ empty
shut_lem none ch p cs (inr (k, held, alone)) = cc held
shut_lem (some c) ch p cs (inl empty) = ap (remove c) (rest_lem ch p cs) ∙ rw empty refl
shut_lem (some c) ch p cs (inr (k, held, alone)) =
    let same : k ≡ c = cc held in ap (remove c) (rest_lem ch p cs) ∙ rw (alone, same) (remove_all c)

begin-IsSafe :
    (sdk : OpenedSdk) (steps : List OpeningStep) (socket : ConnectionState) (pcs : List Pc)
    → steps ≡ monitored sdk.channel sdk.conn ∷ channel_opened sdk.channel ∷ dialed sdk.conn ∷ []
    → IsSafe (begin sdk steps socket pcs)
unfolding begin conns_of reconnect_state
begin-IsSafe sdk steps socket pcs h = rw h (inr (sdk.conn, refl, refl))

begin-IsFresh :
    (sdk : OpenedSdk) (steps : List OpeningStep) (socket : ConnectionState) (pcs : List Pc)
    → IsFresh (begin sdk steps socket pcs).system.sdk
unfolding begin
begin-IsFresh sdk steps socket pcs = record {
  unsignalled = refl;
  unclosed = refl;
  unlogged = refl;
  no_error = refl;
}

begin-AllEntering :
    (sdk : OpenedSdk) (steps : List OpeningStep) (socket : ConnectionState) (pcs : List Pc)
    → All IsEntering pcs
    → All IsEntering (begin sdk steps socket pcs).system.callers
unfolding begin
begin-AllEntering sdk steps socket pcs h = h

opened_steps :
    {S : Type 0} (registry : Registry S) (env : Environment) (cfg : SdkConfig) (first : S)
    (sdk : OpenedSdk)
    → let (r, opened) =
        new_sdk registry env cfg (record { log = []; pool_log = []; registry = first }) in
      r ≡ ok sdk
      → opened.log
        ≡ monitored sdk.channel sdk.conn ∷ channel_opened sdk.channel ∷ dialed sdk.conn ∷ []
opened_steps registry env cfg first sdk made = elim (new_sdk-Outcome registry env cfg first) [
  | inl (e, refused, bad, _) ↦ cc
  | inr (t, accepted, inr (e, bad, _)) ↦ cc
  | inr (t, accepted, inl (sdk', fine, opened)) ↦
      let same : sdk' ≡ sdk = cc in
      subst
        (λ k.
          (new_sdk registry env cfg (record { log = []; pool_log = []; registry = first })).1.log
          ≡ monitored k.channel k.conn ∷ channel_opened k.channel ∷ dialed k.conn ∷ [])
        same opened.logged
]

held_conn :
    (y : Life)
    → IsSafe y
    → (open_conns y.log ≡ [])
      ⊎ ((k : ℕ) × (y.system.sdk.conn ≡ some k) × (open_conns y.log ≡ k ∷ []))
unfolding reconnect_state
held_conn y h = h

-- From any life in which no shutdown has begun.
finished_lem :
    (y : Life) (ms : List Move) (i : ℕ) (e : Option Error)
    → IsSafe y
    → IsFresh y.system.sdk
    → All IsEntering y.system.callers
    → AreTimely y ms
    → get_elem? (lives y ms).system.callers i ≡ some (finished e)
    → (open_now (lives y ms) ≡ []) × ((lives y ms).system.sdk.running ≡ 0)
finished_lem y ms i e safe fresh entering timely found =
    let (shutting, same, timely_shutting) = lives-IsMoved y ms timely in
    let ((_, quiet, _, _, logged), _) =
      finished-IsClosed_once y.system shutting i e fresh entering timely_shutting
        (subst (λ s. get_elem? s.callers i ≡ some (finished e)) same found) in
    let z = lives y ms in
    (
      subst (λ s. shut_conns s.sdk.log (open_conns z.log) ≡ []) (sym same)
          (rw logged (
            shut_lem (moves y.system shutting).sdk.conn (moves y.system shutting).sdk.channel _
              (open_conns z.log)
              (subst
                (λ s.
                  (open_conns z.log ≡ [])
                  ⊎ ((k : ℕ) × (s.sdk.conn ≡ some k) × (open_conns z.log ≡ k ∷ [])))
                same (held_conn z (lives-IsSafe y ms safe))))),
      ap (λ s. s.sdk.running) same ∙ quiet,
    )

-- An SDK that `NewSDK` returned, and whatever becomes of it: calls of the application, goroutines that
-- end and start, runs of `reconnect` however the broker answers, and calls of `Shutdown` by any
-- number of goroutines, under every schedule in which `Start` starts no worker when no goroutine of
-- the SDK runs any more. Once one of these calls has come past `closeOnce`, no
-- goroutine of the SDK runs and every connection that was dialed, by `NewSDK` or by a reconnect, is
-- closed.
pub lives-AllClosed :
    {S : Type 0} (registry : Registry S) (env : Environment) (cfg : SdkConfig) (first : S)
    (sdk : OpenedSdk) (socket : ConnectionState) (callers : List Pc) (ms : List Move) (i : ℕ)
    (e : Option Error)
    → let (r, opened) =
        new_sdk registry env cfg (record { log = []; pool_log = []; registry = first }) in
      let y = lives (begin sdk opened.log socket callers) ms in
      r ≡ ok sdk
      → All IsEntering callers
      → AreTimely (begin sdk opened.log socket callers) ms
      → get_elem? y.system.callers i ≡ some (finished e)
      → (open_now y ≡ []) × (y.system.sdk.running ≡ 0)
lives-AllClosed registry env cfg first sdk socket callers ms i e made entering timely found =
    finished_lem (begin sdk _ socket callers) ms i e
      (begin-IsSafe sdk _ socket callers (opened_steps registry env cfg first sdk made))
      (begin-IsFresh sdk _ socket callers) (begin-AllEntering sdk _ socket callers entering) timely
      found
