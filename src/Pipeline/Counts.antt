-- ===== src/Pipeline/Counts.antt =====
-- What a consumer counts and commits.
use mathlib.Core.Path.{subst}
use kube_data_guard.Pipeline.Steps.{
  Step, skips, stores, write_fails, skip_uncommitted, store_uncommitted, run_messages-Step,
}
use kube_data_guard.Common.{
  ℕ, suc, ◌+◌, ◌-◌, take, String, ◌≡◌, refl, sym, ap, ◌∙◌, inl, inr, Option, some, List, [], ◌∷◌,
  ◌++◌, arith, Bool-cases, if◌then◌else◌,
}
use kube_data_guard.Common.Int.{ℤ, pos, ltb_ℤ}
use kube_data_guard.Python.{Outcome, Error, ok, raise}
use kube_data_guard.Target.{Store}
use kube_data_guard.Scan.Ordered.{append_assoc, append-nil}
use kube_data_guard.Pipeline.{
  Message, Progress, begin, Run, Polled, hand_on, enough, count_message, skip_message,
  store_message, commit_message, run_messages, run_consumer, consume_events, run_indexer,
  run_cache_indexer, apply_index, apply_cache, consume_from,
}

module _ {S : Type 0} (apply : Message → S → Outcome S)
    (commit : Message → Outcome (Unit {0})) where
  -- How a run over those messages ended, and what it counted and committed: the messages committed are
  -- the first ones, in order.
  pub data IsAccounted (ms : List Message) (ending : Outcome (Unit {0})) (r : Run S) : Type 0 where
    drained :
        r.outcome ≡ ending
        → r.progress.processed ≡ r.progress.indexed + r.progress.skipped
        → r.progress.committed ≡ ms
        → IsAccounted ms ending r
    write_failed :
        (e : Error) (m : Message) (rest : List Message)
        → r.outcome ≡ raise e
        → apply m r.progress.state ≡ raise e
        → r.progress.processed ≡ suc (r.progress.indexed + r.progress.skipped)
        → r.progress.committed ++ m ∷ rest ≡ ms
        → IsAccounted ms ending r
    commit_failed :
        (e : Error) (m : Message) (rest : List Message)
        → r.outcome ≡ raise e
        → commit m ≡ raise e
        → r.progress.processed ≡ r.progress.indexed + r.progress.skipped
        → r.progress.committed ++ m ∷ rest ≡ ms
        → IsAccounted ms ending r

  pub IsAccounted-ok :
      (ms : List Message) (ending : Outcome (Unit {0})) (r : Run S)
      → IsAccounted ms ending r
      → r.outcome ≡ ok tt
      → r.progress.committed ≡ ms
  IsAccounted-ok ms ending r (drained o c committed) done = committed
  IsAccounted-ok ms ending r (write_failed e m rest o a c k) done = absurd (cc (sym done ∙ o))
  IsAccounted-ok ms ending r (commit_failed e m rest o a c k) done = absurd (cc (sym done ∙ o))

  module _ (every : Option ℕ) (ending : Outcome (Unit {0})) where
    Step-IsAccounted :
        (m : Message) (ms : List Message) (p : Progress S) (r : Run S)
        → p.processed ≡ p.indexed + p.skipped
        → ((q : Progress S)
            → q.processed ≡ q.indexed + q.skipped
            → IsAccounted (q.committed ++ ms) ending (run_messages apply commit every ms ending q))
        → Step apply commit every m ms ending p r
        → IsAccounted (p.committed ++ m ∷ ms) ending r
    Step-IsAccounted m ms p _ c next (skips e k) =
        let q = commit_message m (skip_message (count_message m p)) in
        subst (λ l. IsAccounted l ending (run_messages apply commit every ms ending q))
          (append_assoc p.committed (m ∷ []) ms) (next q (omega (arith, c)))
    Step-IsAccounted m ms p _ c next (stores s e a k) =
        let q = commit_message m (store_message s (count_message m p)) in
        subst (λ l. IsAccounted l ending (run_messages apply commit every ms ending q))
          (append_assoc p.committed (m ∷ []) ms) (next q (omega (arith, c)))
    Step-IsAccounted m ms p _ c next (write_fails x e a) =
        write_failed x m ms refl a (omega (arith, c)) refl
    Step-IsAccounted m ms p _ c next (skip_uncommitted x e k) =
        commit_failed x m ms refl k (omega (arith, c)) refl
    Step-IsAccounted m ms p _ c next (store_uncommitted s x e a k) =
        commit_failed x m ms refl k (omega (arith, c)) refl

    run_messages-IsAccounted :
        (ms : List Message) (p : Progress S)
        → p.processed ≡ p.indexed + p.skipped
        → IsAccounted (p.committed ++ ms) ending (run_messages apply commit every ms ending p)
    unfolding run_messages
    run_messages-IsAccounted [] p c = drained refl c (sym (append-nil p.committed))
    run_messages-IsAccounted (m ∷ ms) p c =
        Step-IsAccounted m ms p _ c (λ q h. run_messages-IsAccounted ms q h)
          (run_messages-Step apply commit every m ms ending p)

module _ (store : Store) (clock : Message → String) (commit : Message → Outcome (Unit {0})) where
  -- A run of the consumer of the index, or of that of the cache, over what the broker gives, ended in one
  -- of three ways, and committed the first of the messages handed on, in order. It came to the end of
  -- them: it stored or skipped each message that it counted, committed all of them, and ended as the
  -- iteration did, by its error if it raised. Or the write of a message raised: that message is counted,
  -- neither stored nor skipped, and not committed. Or the commit of a message raised: that message is
  -- counted as stored or skipped, and not committed.
  pub run_indexer-IsAccounted :
      (prefix : String) (most : Option ℤ) (every : Option ℕ) (polled : Polled) (s : store.State)
      → IsAccounted
          (apply_index store clock)
          commit
          (consume_events most polled).messages
          (consume_events most polled).ending
          (run_indexer store clock commit most every polled s)
        × IsAccounted
            (apply_cache store clock prefix)
            commit
            (consume_events most polled).messages
            (consume_events most polled).ending
            (run_cache_indexer store clock commit prefix most every polled s)
  unfolding run_indexer run_cache_indexer run_consumer
  run_indexer-IsAccounted prefix most every polled s =
      let given = consume_events most polled in
      (
        run_messages-IsAccounted (apply_index store clock) commit every given.ending given.messages
            (begin s) refl,
        run_messages-IsAccounted (apply_cache store clock prefix) commit every given.ending
            given.messages (begin s) refl,
      )

consume_from-take :
    (n seen : ℕ) (ms : List Message) (polled : Polled)
    → (consume_from (pos n) seen ms polled).messages ≡ take (suc (n - suc seen)) ms
unfolding consume_from
consume_from-take n seen [] polled = refl
consume_from-take n seen (m ∷ ms) polled = elim (Bool-cases (ltb_ℤ (pos (suc seen)) (pos n))) [
  | inl e ↦
      let more : n - suc seen ≡ suc (n - suc (suc seen)) = ground arith in
      let rest = consume_from (pos n) (suc seen) ms polled in
      ap (λ b. (hand_on m (if b then rest else enough polled)).messages) e
      ∙ ap (λ l. m ∷ l) (consume_from-take n (suc seen) ms polled ∙ ap (λ k. take k ms) (sym more))
  | inr e ↦
      let over : 0 ≡ n - suc seen = ground arith in
      let rest = consume_from (pos n) (suc seen) ms polled in
      ap (λ b. (hand_on m (if b then rest else enough polled)).messages) e
      ∙ ap (λ k. m ∷ take k ms) over
]

-- A consumer that is given a bound hands on that many of the waiting messages, from the first on, or all
-- where there are fewer; given the bound 0 it hands on one.
consume_events-take :
    (n : ℕ) (polled : Polled)
    → (consume_events (some (pos n)) polled).messages ≡ take (suc (n - 1)) polled.messages
unfolding consume_events
consume_events-take n polled = consume_from-take n 0 polled.messages polled
