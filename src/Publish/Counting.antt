-- ===== src/Publish/Counting.antt =====
-- What `Publish` and `BatchPublish` return, against what they count.
use huma.Base.{
  ℕ, sym, ap, ◌∙◌, suc, ◌+◌, ◌<◌, ◌≤◌, ◌≡◌, ◌≢◌, ◌⊎◌, inl, inr, refl, String, List, [], ◌∷◌, Option,
  none, some, arith, length, Option-cases,
}
use huma.Go.Errors.{Error}
use huma.Go.Result.{ok, Result-cases}
use huma.Amqp.{Event}
use huma.Message.{Message, validate}
use huma.Publish.{
  Client, successes, failures, publish, publish_all, batch_publish, publishing_of, publish_valid,
}

valid_counts :
    (c : Client) (x k : String) (m : Message) (l : List Event)
    → let (e, w) = publish_valid c x k m l in
      ((e ≡ none) × (successes w ≡ suc (successes l)) × (failures w ≡ failures l))
      ⊎ ((e ≢ none) × (successes w ≡ successes l) × (failures w ≡ suc (failures l)))
unfolding publish_valid
valid_counts c x k m l = ground (
  arith,
  c.counts_no_success l x k (publishing_of c l m),
  c.counts_no_failure l x k (publishing_of c l m),
)

-- One call of `Publish` returns nil and counts one success, or fails and counts one failure, or is
-- refused before anything is sent, by the context or the message, and changes nothing.
pub publish_counts :
    (c : Client) (x k : String) (msg : Option Message) (l : List Event)
    → let (e, w) = publish c x k msg l in
      ((e ≡ none) × (successes w ≡ suc (successes l)) × (failures w ≡ failures l))
      ⊎ ((e ≢ none) × (successes w ≡ successes l) × (failures w ≡ suc (failures l)))
      ⊎ ((e ≢ none)
          × (w ≡ l)
          × ((c.context l ≢ none) ⊎ ((m : Message) → validate (c.now l) msg ≢ ok m)))
unfolding publish
publish_counts c x k msg l = elim (Option-cases (c.context l)) [
  | inr (e, over) ↦ rw (over, publish) (inr (inr (λ h. cc, refl, inl (λ h. cc))))
  | inl live ↦ elim (Result-cases (validate (c.now l) msg)) [
    | inr (e, bad) ↦ rw (live, bad, publish) (inr (inr (λ h. cc, refl, inr (λ m h. cc))))
    | inl (m, good) ↦
        rw (live, good, publish)
          (elim (valid_counts c x k m l) [ inl fine ↦ inl fine | inr bad ↦ inr (inl bad) ])
  ]
]

none-ne-some : {A : Type 0} {a : A} → none ≢ some a
none-ne-some h = cc

published_once :
    (c : Client) (x k : String) (msg : Option Message) (l : List Event)
    → (publish c x k msg l).0 ≡ none
    → (successes (publish c x k msg l).1 ≡ suc (successes l))
      × (failures (publish c x k msg l).1 ≡ failures l)
published_once c x k msg l nil = elim (publish_counts c x k msg l) [
  | inl (_, one, no_more) ↦ (one, no_more)
  | inr (inl (bad, _, _)) ↦ absurd (bad nil)
  | inr (inr (bad, _, _)) ↦ absurd (bad nil)
]

failed_once :
    (c : Client) (x k : String) (msg : Option Message) (l : List Event) (e : Error)
    → (publish c x k msg l).0 ≡ some e
    → (successes (publish c x k msg l).1 ≡ successes l)
      × (failures (publish c x k msg l).1 ≤ suc (failures l))
failed_once c x k msg l e bad = elim (publish_counts c x k msg l) [
  | inl (fine, _, _) ↦ absurd (none-ne-some (sym fine ∙ bad))
  | inr (inl (_, same, one)) ↦ (same, omega (arith, one))
  | inr (inr (_, same, _)) ↦ (ap successes same, omega (arith, ap failures same))
]

batch_rest :
    (c : Client) (x k : String) (msgs : List (Option Message)) (l : List Event)
    → let (e, w) = publish_all c x k msgs l in
      ((e ≡ none) × (successes w ≡ length msgs + successes l) × (failures w ≡ failures l))
      ⊎ ((e ≢ none)
          × ((n : ℕ) × (n < length msgs)
              × (successes w ≡ n + successes l)
              × (failures w ≤ suc (failures l))))
unfolding publish_all
batch_rest c x k [] l = inl (refl, omega arith, refl)
batch_rest c x k (msg ∷ rest) l = elim (Option-cases (publish c x k msg l).0) [
  | inr (e, stop) ↦
      let (same, few) = failed_once c x k msg l e stop in
      rw (stop, publish_all) (inr (λ h. cc, (0, omega arith, omega (arith, same), few)))
  | inl nil ↦
      let once = published_once c x k msg l nil in
      rw (nil, publish_all)
        (elim (batch_rest c x k rest (publish c x k msg l).1) [
          | inl (fine, all, same) ↦ inl (fine, omega (arith, all, once), omega (arith, same, once))
          | inr (bad, (n, less, some_done, few)) ↦
              inr (
                bad,
                (suc n, omega arith, omega (arith, some_done, once), omega (arith, few, once)),
              )
        ])
]

-- A batch returns nil after one success for each of its messages and no failure. If it fails, some
-- first `n` of its messages have counted a success each, at most one has counted a failure, and
-- then it stopped.
pub batch_publish_counts :
    (c : Client) (x k : String) (msgs : List (Option Message)) (l : List Event)
    → let (e, w) = batch_publish c x k msgs l in
      ((e ≡ none) × (successes w ≡ length msgs + successes l) × (failures w ≡ failures l))
      ⊎ ((e ≢ none)
          × ((n : ℕ) × ((n < length msgs) ⊎ (w ≡ l))
              × (successes w ≡ n + successes l)
              × (failures w ≤ suc (failures l))))
unfolding batch_publish
batch_publish_counts c x k msgs l = elim (Option-cases (c.context l)) [
  | inr (e, over) ↦
      rw (over, batch_publish) (inr (λ h. cc, (0, inr refl, omega arith, omega arith)))
  | inl live ↦
      rw (live, batch_publish)
        (elim (batch_rest c x k msgs l) [
          | inl fine ↦ inl fine
          | inr (bad, (n, less, some_done, few)) ↦ inr (bad, (n, inl less, some_done, few))
        ])
]
