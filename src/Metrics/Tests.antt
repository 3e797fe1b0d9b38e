-- ===== src/Metrics/Tests.antt =====
-- A registry as a test on collectors, where another SDK has registered one already.
use huma.Base.{◌≡◌, ◌≢◌, ◌⊎◌, refl, Bool, true, false, Option, none, some, arith}
use huma.Go.Errors.{Error, external}
use huma.Metrics.{Collector, Collector-discrete, Registry, new_prometheus_metrics, publish_failed}
use huma.Metrics.Registration.{new_prometheus_metrics_atomic}

abbrev pub update : (Collector → Bool) → Collector → Bool → Collector → Bool
update s c b d = elim (Collector-discrete c d) [ yes _ ↦ b | no _ ↦ s d ]

abbrev pub add : (Collector → Bool) → Collector → Bool → Option Error × (Collector → Bool)
add s c true = (some (external 1), s)
add s c false = (none, update s c true)

pub update_self : (s : Collector → Bool) (c : Collector) (b : Bool) → update s c b c ≡ b
update_self s c b = ground arith

pub update_ne : (s : Collector → Bool) (c d : Collector) (b : Bool) → c ≢ d → update s c b d ≡ s d
update_ne s c d b h = ground arith

pub add_fails :
    (s : Collector → Bool) (c : Collector) (b : Bool) (e : Error)
    → (add s c b).0 ≡ some e
    → (add s c b).1 ≡ s
add_fails s c true e h = refl
add_fails s c false e h = cc

pub add_new : (s : Collector → Bool) (c : Collector) (b : Bool) → (add s c b).0 ≡ none → b ≡ false
add_new s c true h = cc
add_new s c false h = refl

pub add_adds :
    (s : Collector → Bool) (c : Collector) (b : Bool)
    → (add s c b).0 ≡ none
    → (add s c b).1 c ≡ true
add_adds s c true h = cc
add_adds s c false h = update_self s c true

pub add_others : (s : Collector → Bool) (c d : Collector) (b : Bool) → c ≢ d → (add s c b).1 d ≡ s d
add_others s c d true h = refl
add_others s c d false h = update_ne s c d true h

abbrev pub table : Registry (Collector → Bool)
table = record {
  holds = λ s c. s c;
  register = λ s c. add s c (s c);
  unregister = λ s c. update s c false;
  register_fails = λ s c e h. add_fails s c (s c) e h;
  register_new = λ s c h. add_new s c (s c) h;
  register_adds = λ s c h. add_adds s c (s c) h;
  register_others = λ s c d h. add_others s c d (s c) h;
  unregister_removes = λ s c. update_self s c false;
  unregister_others = λ s c d h. update_ne s c d false h;
}

-- Only `publish_failed` is there.
abbrev pub taken : Collector → Bool
taken = update (λ _. false) publish_failed true

new_prometheus_metrics_atomic_example :
    (((new_prometheus_metrics table taken).0 ≡ none)
      × ((d : Collector) → (taken d ≡ false) × ((new_prometheus_metrics table taken).1 d ≡ true)))
    ⊎ (((new_prometheus_metrics table taken).0 ≢ none)
        × ((d : Collector) → (new_prometheus_metrics table taken).1 d ≡ taken d))
new_prometheus_metrics_atomic_example = new_prometheus_metrics_atomic table taken
