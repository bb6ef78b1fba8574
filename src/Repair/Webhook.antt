-- ===== src/Repair/Webhook.antt =====
-- What the repairs that call a service once for each order, or for each batch, send.
use kube_data_guard.Common.{
  ℕ, suc, ◌≡◌, refl, ap, ◌∙◌, ◌==◌, false, List, [], ◌∷◌, map, length, All, All-map,
}
use kube_data_guard.Common.Int.{pos}
use kube_data_guard.Python.{Json, Outcome, ok, ◌>>=◌, Value, str_value, to_int, JsonFields}
use kube_data_guard.Repair.{
  Action, publish, post, Done, World, getenv_or, each, replay_topic, replay_json, replay_answer,
  publish_kafka_replay_requests, webhook_json, webhook_answer, webhook_result,
  call_reconciliation_webhook,
}
use kube_data_guard.Repair.Batches.{flatten, IsBatch, batches-flatten}

module _ {A B : Type 0} (act : A → Action) (answer : A → Outcome B) where
  each_step :
      (x : A) (xs : List A) (y : B)
      → answer x ≡ ok y
      → each act answer (x ∷ xs) ≡ record {
        actions = act x ∷ (each act answer xs).actions;
        result = (each act answer xs).result >>= λ ys. ok (y ∷ ys);
      }
  unfolding each
  each_step x xs y e = rw (each, e) refl

  -- Where every call is answered, all are made, in order, and the loop has as many answers.
  each-answered :
      (xs : List A)
      → All (λ x. (y : B) × (answer x ≡ ok y)) xs
      → (ys : List B) × ((each act answer xs).actions ≡ map act xs)
        × ((each act answer xs).result ≡ ok ys)
        × (length ys ≡ length xs)
  unfolding each
  each-answered [] h = ([], refl, refl, refl)
  each-answered (x ∷ xs) h =
      let (ys, a, r, n) = each-answered xs h.1 in
      let made = each_step x xs h.0.0 h.0.1 in
      (
        h.0.0 ∷ ys,
        ap (λ (d : Done (List B)). d.actions) made ∙ ap (λ l. act x ∷ l) a,
        ap (λ (d : Done (List B)). d.result) made ∙ ap (λ m. m >>= λ zs. ok (h.0.0 ∷ zs)) r,
        ap suc n,
      )

-- A computation that goes on with the result of one that returns, returns.
returns :
    {A B : Type 0} (m : Outcome A) (f : A → B) {a : A}
    → m ≡ ok a
    → (b : B) × ((m >>= λ x. ok (f x)) ≡ ok b)
returns m f {a} e = (f a, ap (λ m. m >>= λ x. ok (f x)) e)

All-always : {A : Type 0} (P : A → Type 0) (xs : List A) → ((x : A) → P x) → All P xs
All-always P [] f = tt
All-always P (x ∷ xs) f = (f x, All-always P xs f)

-- Where every message is taken, the Kafka repair publishes one replay request for each order, under the
-- order's identifier and in the order given, and returns.
pub replay-publishes :
    (w : World) (ids : List Value)
    → All
        (λ id. (m : JsonFields) × (w.publish_answer (replay_topic w) id (replay_json id) ≡ ok m))
        ids
    → ((publish_kafka_replay_requests w ids).actions
        ≡ map (λ id. publish (replay_topic w) id (replay_json id)) ids)
      × (f : JsonFields) × ((publish_kafka_replay_requests w ids).result ≡ ok f)
unfolding publish_kafka_replay_requests replay_answer
replay-publishes w ids h =
    let (ys, a, r, n) =
      each-answered (λ id. publish (replay_topic w) id (replay_json id)) (replay_answer w) ids
        (All-map _ _ ids (λ id m. returns _ _ m.1) h) in
    let (f, p) = returns _ _ r in (a, f, p)

-- Where the endpoint is set, the batch size is a positive number and every request is answered, the
-- webhook repair returns; its requests carry batches of at most that size, none empty, which together
-- are the orders in the order given.
pub webhook-flatten :
    (w : World) (n : ℕ) (ids : List Value)
    → (getenv_or w "REPAIR_WEBHOOK_URL" "" == "") ≡ false
    → to_int (str_value (getenv_or w "REPAIR_WEBHOOK_BATCH_SIZE" "500")) ≡ ok (pos (suc n))
    → ((b : List Value)
        → (r : Json × Json) × (w.post_answer (getenv_or w "REPAIR_WEBHOOK_URL" "") (webhook_json b)
            ≡ ok r))
    → (bs : List (List Value)) × (f : JsonFields) × ((call_reconciliation_webhook w ids).actions
        ≡ map (λ b. post (getenv_or w "REPAIR_WEBHOOK_URL" "") (webhook_json b)) bs)
      × ((call_reconciliation_webhook w ids).result ≡ ok f)
      × (flatten bs ≡ ids)
      × All (IsBatch (suc n)) bs
unfolding call_reconciliation_webhook webhook_answer
webhook-flatten w n ids u s h =
    let endpoint = getenv_or w "REPAIR_WEBHOOK_URL" "" in
    let (bs, e, f, k) = batches-flatten n ids in
    let (ys, a, r, m) =
      each-answered (λ b. post endpoint (webhook_json b)) (webhook_answer w endpoint) bs
        (All-always _ bs (λ b. returns _ _ ((h b).1))) in
    (bs, webhook_result w endpoint ids ys, rw (u, s, e) a, rw (u, s, e, r) refl, f, k)
