-- ===== src/Pipeline/Steps.antt =====
-- The loop of a consumer, one message at a time.
use kube_data_guard.Common.{
  ℕ, ◌≡◌, refl, ◌⊎◌, inl, inr, Bool, true, false, ◌&&◌, Option, List, ◌∷◌, Bool-cases,
}
use kube_data_guard.Python.{Outcome, Error, ok, raise}
use kube_data_guard.Pipeline.{
  Message, Progress, Run, is_paid, is_skipped, count_message, skip_message, store_message,
  commit_message, run_messages,
}

pub Outcome-cases {ℓ} :
    {S : Type ℓ} (o : Outcome S) → ((s : S) × (o ≡ ok s)) ⊎ ((e : Error) × (o ≡ raise e))
Outcome-cases (ok s) = inl (s, refl)
Outcome-cases (raise e) = inr (e, refl)

-- A message is passed over where the count of paid ones, it included, says so.
abbrev pub passes : {S : Type 0} → Option ℕ → Message → Progress S → Bool
passes every m p = is_paid m && is_skipped every (count_message m p).paid_seen

module _ {S : Type 0} (apply : Message → S → Outcome S) (commit : Message → Outcome (Unit {0}))
    (every : Option ℕ) where
  -- The first message of a run: what it does with it, and the run that follows if one does.
  pub data Step (m : Message) (ms : List Message) (ending : Outcome (Unit {0})) (p : Progress S)
      : Run S → Type 0 where
    skips :
        passes every m p ≡ true
        → commit m ≡ ok tt
        → Step m ms ending p (
            run_messages apply commit every ms ending
              (commit_message m (skip_message (count_message m p))))
    stores :
        (s : S)
        → passes every m p ≡ false
        → apply m p.state ≡ ok s
        → commit m ≡ ok tt
        → Step m ms ending p (
            run_messages apply commit every ms ending
              (commit_message m (store_message s (count_message m p))))
    write_fails :
        (e : Error)
        → passes every m p ≡ false
        → apply m p.state ≡ raise e
        → Step m ms ending p (record { progress = count_message m p; outcome = raise e })
    skip_uncommitted :
        (e : Error)
        → passes every m p ≡ true
        → commit m ≡ raise e
        → Step m ms ending p
            (record { progress = skip_message (count_message m p); outcome = raise e })
    store_uncommitted :
        (s : S) (e : Error)
        → passes every m p ≡ false
        → apply m p.state ≡ ok s
        → commit m ≡ raise e
        → Step m ms ending p
            (record { progress = store_message s (count_message m p); outcome = raise e })

  pub run_messages-Step :
      (m : Message) (ms : List Message) (ending : Outcome (Unit {0})) (p : Progress S)
      → Step m ms ending p (run_messages apply commit every (m ∷ ms) ending p)
  unfolding run_messages
  run_messages-Step m ms ending p = elim (Bool-cases (passes every m p)) [
    | inl e ↦ elim (Outcome-cases (commit m)) [
      | inl (tt, c) ↦ rw (run_messages, e, c) (skips e c)
      | inr (x, c) ↦ rw (run_messages, e, c) (skip_uncommitted x e c)
    ]
    | inr e ↦ elim (Outcome-cases (apply m p.state)) [
      | inl (s, a) ↦ elim (Outcome-cases (commit m)) [
        | inl (tt, c) ↦ rw (run_messages, e, a, c) (stores s e a c)
        | inr (x, c) ↦ rw (run_messages, e, a, c) (store_uncommitted s x e a c)
      ]
      | inr (x, a) ↦ rw (run_messages, e, a) (write_fails x e a)
    ]
  ]
