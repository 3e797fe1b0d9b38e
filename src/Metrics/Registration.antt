-- ===== src/Metrics/Registration.antt =====
-- Registering the metrics is all or nothing.
use mathlib.Core.Path.{subst}
use mathlib.Core.List.{append-nil, append_assoc}
use huma.Base.{
  String, ◌≡◌, ◌≢◌, ◌⊎◌, inl, inr, refl, sym, Bool, true, false, ◌||◌, List, [], ◌∷◌, ◌++◌, Option,
  none, arith, length, Option-cases, if◌then◌else◌,
}
use huma.Go.Errors.{Error}
use huma.Metrics.{
  Collector, Collector-discrete, collectors, Registry, register_all, unregister_all,
  new_prometheus_metrics, label_names, label_values, messages_received,
}

-- A call of a queue metric gives one value for each label that it was made with, whatever the
-- label and the hook, so that Prometheus accepts it.
pub length-label_values :
    (label_name : String) (label_value : Option String) (queue : String)
    → length (label_values label_name label_value queue) ≡ length (label_names label_name)
unfolding label_values label_names
length-label_values label_name label_value queue = ground arith

is_in : Collector → List Collector → Bool
is_in d [] = false
is_in d (c ∷ cs) = elim (Collector-discrete c d) [ yes _ ↦ true | no _ ↦ is_in d cs ]

is_in-append :
    (d c : Collector) (cs : List Collector)
    → is_in d (cs ++ c ∷ []) ≡ is_in d cs || is_in d (c ∷ [])
unfolding is_in
is_in-append d c [] = refl
is_in-append d c (x ∷ cs) = ground (arith, is_in-append d c cs)

every_one : (d : Collector) → is_in d collectors ≡ true
unfolding is_in
every_one messages_received = ground arith
every_one _ = ground arith

module _ {S : Type 0} (r : Registry S) where
  open r use {holds}

  holds-unregister_all :
      (cs : List Collector) (s : S) (d : Collector)
      → holds (unregister_all r cs s) d ≡ (if is_in d cs then false else holds s d)
  unfolding unregister_all is_in
  holds-unregister_all [] s d = refl
  holds-unregister_all (c ∷ cs) s d = ground (
    arith,
    holds-unregister_all cs (r.unregister s c) d,
    r.unregister_removes s c,
    r.unregister_others s c d,
  )

  -- The registry `s` is the registry `start` with exactly the collectors `added`, which were new.
  abbrev Added : S → List Collector → S → Type 0
  Added start added s =
      (d : Collector)
      → ((is_in d added ≡ true) × (holds start d ≡ false) × (holds s d ≡ true))
        ⊎ ((is_in d added ≡ false) × (holds s d ≡ holds start d))

  Added-register :
      (start s : S) (added : List Collector) (c : Collector)
      → Added start added s
      → (r.register s c).0 ≡ none
      → Added start (added ++ c ∷ []) (r.register s c).1
  unfolding is_in
  Added-register start s added c h e d = ground (
    arith,
    h d,
    h c,
    is_in-append d c added,
    r.register_new s c,
    r.register_adds s c,
    r.register_others s c d,
  )

  -- What the loop does to a registry in which `added` were registered already.
  abbrev Outcome : S → Option Error × S → List Collector → Type 0
  Outcome start (e, s) all =
      ((e ≡ none) × Added start all s)
      ⊎ ((e ≢ none) × ((d : Collector) → holds s d ≡ holds start d))

  register_all-Outcome :
      (start : S) (added cs : List Collector) (s : S)
      → Added start added s
      → Outcome start (register_all r added cs s) (added ++ cs)
  unfolding register_all
  register_all-Outcome start added [] s h =
      inl (refl, subst (λ all. Added start all s) (sym (append-nil added)) h)
  register_all-Outcome start added (c ∷ cs) s h = elim (Option-cases (r.register s c).0) [
    | inr (e, bad) ↦
        rw (bad, register_all)
          (inr (
            λ x. cc,
            λ d. ground (
              arith,
              h d,
              r.register_fails s c e,
              holds-unregister_all added (r.register s c).1 d,
            ),
          ))
    | inl fine ↦
        rw (fine, register_all)
          (subst (λ all. Outcome start (register_all r (added ++ c ∷ []) cs (r.register s c).1) all)
            (append_assoc added (c ∷ []) cs)
            (register_all-Outcome start (added ++ c ∷ []) cs (r.register s c).1
              (Added-register start s added c h fine)))
  ]

  -- The metrics are registered all together, where none was registered before, or an error is
  -- returned and the registry holds exactly what it held.
  pub new_prometheus_metrics_atomic :
      (s : S)
      → let (e, t) = new_prometheus_metrics r s in
        ((e ≡ none) × ((d : Collector) → (holds s d ≡ false) × (holds t d ≡ true)))
        ⊎ ((e ≢ none) × ((d : Collector) → holds t d ≡ holds s d))
  unfolding new_prometheus_metrics is_in
  new_prometheus_metrics_atomic s =
      elim (register_all-Outcome s [] collectors s (λ d. inr (refl, refl))) [
        | inr failed ↦ inr failed
        | inl (fine, h) ↦ inl (fine, λ d. ground (arith, h d, every_one d))
      ]
