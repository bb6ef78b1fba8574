-- ===== src/Pipeline/Overwritten.antt =====
-- What a run over messages leaves in its store, against a description of it without the loop: a view by
-- key that each delivered message overwrites at its key.
use kube_data_guard.Common.{
  ℕ, suc, ◌≡◌, refl, sym, ap, ◌∙◌, ◌==◌, true, false, ◌&&◌, Option, some, String, List, [], ◌∷◌,
  ◌++◌, if◌then◌else◌,
}
use kube_data_guard.Python.{Outcome, Error, ok, raise, Row}
use kube_data_guard.Target.{Store}
use kube_data_guard.Scan.Ordered.{append_assoc, append-nil}
use kube_data_guard.Pipeline.Steps.{
  passes, Step, skips, stores, write_fails, skip_uncommitted, store_uncommitted, run_messages-Step,
}
use kube_data_guard.Pipeline.{
  Message, Progress, begin, Run, is_paid, is_skipped, count_message, skip_message, store_message,
  commit_message, run_messages,
}

-- The messages that reach the store, where `seen` paid ones went before.
unfoldable pub delivered : Option ℕ → ℕ → List Message → List Message
delivered every seen [] = []
delivered every seen (m ∷ ms) =
    let seen' = if is_paid m then suc seen else seen in
    let rest = delivered every seen' ms in
    if is_paid m && is_skipped every seen' then rest else m ∷ rest

-- At most one message, whose commit raised what the run ended with.
unfoldable pub Unacknowledged :
    (Message → Outcome (Unit {0})) → Outcome (Unit {0}) → List Message → Type 0
Unacknowledged commit o [] = Unit
Unacknowledged commit o (m ∷ []) = (e : Error) × (commit m ≡ raise e) × (o ≡ raise e)
Unacknowledged commit o (m ∷ n ∷ ms) = ⊥

pub Unacknowledged-ok :
    (commit : Message → Outcome (Unit {0})) (o : Outcome (Unit {0})) (ms : List Message)
    → o ≡ ok tt
    → Unacknowledged commit o ms
    → ms ≡ []
unfolding Unacknowledged
Unacknowledged-ok commit o [] done h = refl
Unacknowledged-ok commit o (m ∷ []) done (e, c, failed) = absurd (cc (sym done ∙ failed))
Unacknowledged-ok commit o (m ∷ n ∷ ms) done h = absurd h

abbrev pub View : Type 0
View = String → Option Row

module _ (key : Message → String) (document_of : Message → Row) where
  -- A view once it has taken in those messages, in order.
  unfoldable pub overwritten : List Message → View → View
  overwritten [] view = view
  overwritten (m ∷ ms) view =
      overwritten ms (λ k. if key m == k then some (document_of m) else view k)

  overwritten-cong :
      (ms : List Message) (v w : View)
      → ((k : String) → v k ≡ w k)
      → (k : String) → overwritten ms v k ≡ overwritten ms w k
  unfolding overwritten
  overwritten-cong [] v w h k = h k
  overwritten-cong (m ∷ ms) v w h k =
      overwritten-cong ms _ _ (λ j. ap (λ o. if key m == j then some (document_of m) else o) (h j))
        k

  -- What a run over those messages leaves in the store, from that state before: of the messages, the
  -- first ones are committed, then there may be one whose commit failed, and the store holds what these
  -- made of the state, less those passed over.
  pub record Leaves (store : Store) (commit : Message → Outcome (Unit {0})) (every : Option ℕ)
      (ms : List Message) (s : store.State) (r : Run store.State) : Type 0 where
    pub pending : List Message
    pub rest : List Message
    pub unacknowledged : Unacknowledged commit r.outcome pending
    pub consumed : r.progress.committed ++ (pending ++ rest) ≡ ms
    pub holds :
        (k : String)
        → store.document r.progress.state k
          ≡ overwritten (delivered every 0 (r.progress.committed ++ pending)) (store.document s) k

  module _ (store : Store) (apply : Message → store.State → Outcome store.State)
      (commit : Message → Outcome (Unit {0})) (every : Option ℕ) (ending : Outcome (Unit {0})) where
    -- The state of a run over those messages holds what the delivered ones of the messages committed
    -- since, and of the one whose commit failed, made of the state before.
    record Holds (ms : List Message) (p : Progress store.State) (r : Run store.State) : Type 0 where
      since : List Message
      pending : List Message
      rest : List Message
      unacknowledged : Unacknowledged commit r.outcome pending
      consumed : since ++ (pending ++ rest) ≡ ms
      committed : r.progress.committed ≡ p.committed ++ since
      holds :
          (k : String)
          → store.document r.progress.state k
            ≡ overwritten
                (delivered every p.paid_seen (since ++ pending))
                (store.document p.state)
                k

    Holds-skip :
        (m : Message) (p : Progress store.State) (r : Run store.State) (ms : List Message)
        → passes every m p ≡ true
        → Holds ms (commit_message m (skip_message (count_message m p))) r
        → Holds (m ∷ ms) p r
    unfolding delivered overwritten
    Holds-skip m p r ms e h = record {
      since = m ∷ h.since;
      pending = h.pending;
      rest = h.rest;
      unacknowledged = h.unacknowledged;
      consumed = ap (λ l. m ∷ l) h.consumed;
      committed = h.committed ∙ append_assoc p.committed (m ∷ []) h.since;
      holds = λ k. rw (delivered, e) (h.holds k);
    }

    Holds-store :
        (m : Message) (p : Progress store.State) (r : Run store.State) (ms : List Message)
        (s : store.State)
        → passes every m p ≡ false
        → ((k : String)
            → store.document s k
              ≡ (if key m == k then some (document_of m) else store.document p.state k))
        → Holds ms (commit_message m (store_message s (count_message m p))) r
        → Holds (m ∷ ms) p r
    unfolding delivered overwritten
    Holds-store m p r ms s e law h = record {
      since = m ∷ h.since;
      pending = h.pending;
      rest = h.rest;
      unacknowledged = h.unacknowledged;
      consumed = ap (λ l. m ∷ l) h.consumed;
      committed = h.committed ∙ append_assoc p.committed (m ∷ []) h.since;
      holds = λ k.
          rw (delivered, e)
            (h.holds k ∙ overwritten-cong (delivered every _ (h.since ++ h.pending)) _ _ law k);
    }

    -- A run that ended before it changed the state.
    Holds-unchanged :
        (ms : List Message) (p : Progress store.State) (r : Run store.State)
        → r.progress.committed ≡ p.committed
        → r.progress.state ≡ p.state
        → Holds ms p r
    unfolding delivered overwritten Unacknowledged
    Holds-unchanged ms p r c e = record {
      since = [];
      pending = [];
      rest = ms;
      unacknowledged = tt;
      consumed = refl;
      committed = c ∙ sym (append-nil p.committed);
      holds = λ k. ap (λ s. store.document s k) e;
    }

    module _
        (law : (m : Message) (s s' : store.State)
          → apply m s ≡ ok s'
          → (k : String)
          → store.document s' k
            ≡ (if key m == k then some (document_of m) else store.document s k)) where
      Step-Holds :
          (m : Message) (ms : List Message) (p : Progress store.State) (r : Run store.State)
          → ((q : Progress store.State) → Holds ms q (run_messages apply commit every ms ending q))
          → Step apply commit every m ms ending p r
          → Holds (m ∷ ms) p r
      unfolding delivered overwritten Unacknowledged
      Step-Holds m ms p _ next (skips e k) =
          Holds-skip m p _ ms e (next (commit_message m (skip_message (count_message m p))))
      Step-Holds m ms p _ next (stores s e a k) =
          Holds-store m p _ ms s e (law m p.state s a)
            (next (commit_message m (store_message s (count_message m p))))
      Step-Holds m ms p _ next (write_fails x e a) = Holds-unchanged (m ∷ ms) p _ refl refl
      Step-Holds m ms p _ next (skip_uncommitted x e k) = record {
        since = [];
        pending = m ∷ [];
        rest = ms;
        unacknowledged = (x, k, refl);
        consumed = refl;
        committed = sym (append-nil p.committed);
        holds = λ n. rw (delivered, e) refl;
      }
      Step-Holds m ms p _ next (store_uncommitted s x e a k) = record {
        since = [];
        pending = m ∷ [];
        rest = ms;
        unacknowledged = (x, k, refl);
        consumed = refl;
        committed = sym (append-nil p.committed);
        holds = λ n. rw (delivered, e) (law m p.state s a n);
      }

      run_messages-Holds :
          (ms : List Message) (p : Progress store.State)
          → Holds ms p (run_messages apply commit every ms ending p)
      unfolding run_messages
      run_messages-Holds [] p = Holds-unchanged [] p _ refl refl
      run_messages-Holds (m ∷ ms) p =
          Step-Holds m ms p _ (λ q. run_messages-Holds ms q)
            (run_messages-Step apply commit every m ms ending p)

      pub run_messages-Leaves :
          (ms : List Message) (s : store.State)
          → Leaves store commit every ms s (run_messages apply commit every ms ending (begin s))
      run_messages-Leaves ms s =
          let h = run_messages-Holds ms (begin s) in
          let r = run_messages apply commit every ms ending (begin s) in
          record {
            pending = h.pending;
            rest = h.rest;
            unacknowledged = h.unacknowledged;
            consumed = ap (λ l. l ++ (h.pending ++ h.rest)) h.committed ∙ h.consumed;
            holds = λ k.
                h.holds k
                ∙ ap (λ l. overwritten (delivered every 0 (l ++ h.pending)) (store.document s) k)
                    (sym h.committed);
          }
