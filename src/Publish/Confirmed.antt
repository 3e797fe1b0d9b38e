-- ===== src/Publish/Confirmed.antt =====
-- `Publish` and `BatchPublish` over the model of `publishAMQP`: what a nil error says.
use mathlib.Core.Path.{subst}
use huma.Base.{
  All, sym, ap, ◌∙◌, ◌≡◌, refl, inl, inr, String, List, [], ◌∷◌, Option, none, some, Option-cases,
}
use huma.Go.Errors.{Error}
use huma.Go.Result.{ok, Result-cases}
use huma.Amqp.{Event}
use huma.Message.{Message, validate}
use huma.Publisher.{Job}
use huma.Publisher.Confirmation.{IsConfirmed}
use huma.Publisher.Solo.{Turns, publish_amqp, job_of}
use huma.Publisher.Solo.Laws.{
  counts_no_success, counts_no_failure, publish_amqp-IsConfirmed, publish_amqp-log,
}
use huma.Publish.{
  Client, publish, publish_valid, publish_all, batch_publish, publishing_of, count_publish,
  choose_queue_name_label,
}

-- A client whose `publishAMQP` is the modelled one.
abbrev pub over : Turns → Client → Client
over t c = record c {
  publish_amqp = publish_amqp t;
  counts_no_success = counts_no_success t;
  counts_no_failure = counts_no_failure t;
}

pub none-ne-some : {A : Type 0} {a : A} → none ≡ some a → ⊥
none-ne-some h = cc

-- The counter comes on top of the log, and hides no confirmation.
counted-IsConfirmed :
    (j : Job) (label : String) (o : Option Error × List Event)
    → IsConfirmed j o.1
    → IsConfirmed j (count_publish label o).1
unfolding count_publish
counted-IsConfirmed j label (none, l) h = h
counted-IsConfirmed j label (some e, l) h = h

counted_nil :
    (label : String) (o : Option Error × List Event) → (count_publish label o).0 ≡ none → o.0 ≡ none
unfolding count_publish
counted_nil label (none, l) h = refl
counted_nil label (some e, l) h = cc

-- The message was accepted, and the broker has confirmed what was published of it.
abbrev pub IsSent : Client → String → String → Option Message → List Event → Type 0
IsSent c x k msg l =
    (at : List Event) × (m : Message) × (validate (c.now at) msg ≡ ok m)
    × IsConfirmed (job_of x k (publishing_of c at m)) l

module _ (t : Turns) (c : Client) (x k : String) where
  valid_sends :
      (m : Message) (l : List Event)
      → (publish_valid (over t c) x k m l).0 ≡ none
      → IsConfirmed (job_of x k (publishing_of (over t c) l m)) (publish_valid (over t c) x k m l).1
  unfolding publish_valid
  valid_sends m l h =
      let p = publishing_of (over t c) l m in
      counted-IsConfirmed (job_of x k p) (choose_queue_name_label x k) (publish_amqp t l x k p) (
        publish_amqp-IsConfirmed t l x k p
          (counted_nil (choose_queue_name_label x k) (publish_amqp t l x k p) h))

  valid_keeps :
      (m : Message) (l : List Event) (j : Job)
      → IsConfirmed j l
      → IsConfirmed j (publish_valid (over t c) x k m l).1
  unfolding publish_valid
  valid_keeps m l j h =
      let p = publishing_of (over t c) l m in
      counted-IsConfirmed j (choose_queue_name_label x k) (publish_amqp t l x k p)
        (publish_amqp-log t l x k p j h)

  -- `Publish` that returns nil has accepted the message, and the broker has confirmed exactly what
  -- is to be published of it, with the exchange and the routing key of the call.
  pub publish_sends :
      (msg : Option Message) (l : List Event)
      → (publish (over t c) x k msg l).0 ≡ none
      → IsSent (over t c) x k msg (publish (over t c) x k msg l).1
  unfolding publish
  publish_sends msg l h = elim (Option-cases (c.context l)) [
    | inr (e, late) ↦ absurd (none-ne-some {a = e} (sym h ∙ rw (publish, late) refl))
    | inl live ↦ elim (Result-cases (validate (c.now l) msg)) [
      | inr (e, bad) ↦ absurd (none-ne-some {a = e} (sym h ∙ rw (publish, live, bad) refl))
      | inl (m, good) ↦
          let same : publish (over t c) x k msg l ≡ publish_valid (over t c) x k m l =
            rw (publish, live, good) refl in
          rw same (
            l,
            m,
            good,
            valid_sends m l (ap (λ (o : Option Error × List Event). o.0) (sym same) ∙ h),
          )
    ]
  ]

  publish_keeps :
      (msg : Option Message) (l : List Event) (j : Job)
      → IsConfirmed j l
      → IsConfirmed j (publish (over t c) x k msg l).1
  unfolding publish
  publish_keeps msg l j h = elim (Option-cases (c.context l)) [
    | inr (e, late) ↦ rw (publish, late) h
    | inl live ↦ elim (Result-cases (validate (c.now l) msg)) [
      | inr (e, bad) ↦ rw (publish, live, bad) h
      | inl (m, good) ↦ rw (publish, live, good) (valid_keeps m l j h)
    ]
  ]

  all_keeps :
      (msgs : List (Option Message)) (l : List Event) (j : Job)
      → IsConfirmed j l
      → IsConfirmed j (publish_all (over t c) x k msgs l).1
  unfolding publish_all
  all_keeps [] l j h = h
  all_keeps (msg ∷ rest) l j h = elim (Option-cases (publish (over t c) x k msg l).0) [
    | inr (e, bad) ↦ rw (publish_all, bad) (publish_keeps msg l j h)
    | inl fine ↦ rw (publish_all, fine) (all_keeps rest _ j (publish_keeps msg l j h))
  ]

  publish_all_sends :
      (msgs : List (Option Message)) (l : List Event)
      → (publish_all (over t c) x k msgs l).0 ≡ none
      → All (λ msg. IsSent (over t c) x k msg (publish_all (over t c) x k msgs l).1) msgs
  unfolding publish_all
  publish_all_sends [] l h = tt
  publish_all_sends (msg ∷ rest) l h = elim (Option-cases (publish (over t c) x k msg l).0) [
    | inr (e, bad) ↦ absurd (none-ne-some {a = e} (sym h ∙ rw (publish_all, bad) refl))
    | inl fine ↦
        let w = (publish (over t c) x k msg l).1 in
        let same : publish_all (over t c) x k (msg ∷ rest) l ≡ publish_all (over t c) x k rest w =
          rw (publish_all, fine) refl in
        let (at, m, good, sent) = publish_sends msg l fine in
        subst
          (λ (o : Option Error × List Event).
            All (λ msg'. IsSent (over t c) x k msg' o.1) (msg ∷ rest))
          (sym same)
          (
            (at, m, good, all_keeps rest w _ sent),
            publish_all_sends rest w (ap (λ (o : Option Error × List Event). o.0) (sym same) ∙ h),
          )
  ]

  -- `BatchPublish` that returns nil has accepted every message of the batch, and the broker has
  -- confirmed what is to be published of each.
  pub batch_publish_sends :
      (msgs : List (Option Message)) (l : List Event)
      → (batch_publish (over t c) x k msgs l).0 ≡ none
      → All (λ msg. IsSent (over t c) x k msg (batch_publish (over t c) x k msgs l).1) msgs
  unfolding batch_publish
  batch_publish_sends msgs l h = elim (Option-cases (c.context l)) [
    | inr (e, late) ↦ absurd (none-ne-some {a = e} (sym h ∙ rw (batch_publish, late) refl))
    | inl live ↦
        let same : batch_publish (over t c) x k msgs l ≡ publish_all (over t c) x k msgs l =
          rw (batch_publish, live) refl in
        subst (λ (o : Option Error × List Event). All (λ msg. IsSent (over t c) x k msg o.1) msgs)
          (sym same)
          (publish_all_sends msgs l (ap (λ (o : Option Error × List Event). o.0) (sym same) ∙ h))
  ]
