-- ===== src/Checkpoints/RoundTrip.antt =====
-- A checkpoint that was saved is the one that is loaded.
use kube_data_guard.Common.{
  ◌≡◌, ap, ◌∙◌, ◌==◌, eq_refl, inl, inr, some, String, Bool-cases, if◌then◌else◌,
}
use kube_data_guard.Python.{
  Outcome, ok, raise, ◌>>=◌, >>=-eq-ok, JsonFields, text, find, find-set_field,
}
use kube_data_guard.Checkpoints.{
  body, Blobs, Settings, checkpoint_kind, normalize_checkpoint_payload, checkpoint_store,
  local_checkpoint_path, checkpoint_s3_key, needs_bucket, body_or_none, read_or_none,
  load_scan_checkpoint, save_scan_checkpoint, load_local_checkpoint, save_local_checkpoint,
  load_s3_checkpoint, save_s3_checkpoint,
}

-- The entries of the checkpoint of that identifier made at that time from the payload.
abbrev pub IsCheckpoint : String → String → JsonFields → JsonFields → Type 0
IsCheckpoint now id payload d =
    (name : String)
    → find name d ≡ (
        if "updated_at" == name
        then some (text now)
        else if "checkpoint_id" == name
        then some (text id)
        else if "kind" == name
        then some (text checkpoint_kind)
        else find name payload)

normalize-IsCheckpoint :
    (now id : String) (payload : JsonFields)
    → IsCheckpoint now id payload (normalize_checkpoint_payload now id payload)
unfolding normalize_checkpoint_payload
normalize-IsCheckpoint now id payload name =
    find-set_field "updated_at" name (text now) _
    ∙ ap (λ o. if "updated_at" == name then some (text now) else o)
        (find-set_field "checkpoint_id" name (text id) _
          ∙ ap (λ o. if "checkpoint_id" == name then some (text id) else o)
              (find-set_field "kind" name (text checkpoint_kind) payload))

-- The state of a pair that two results share.
state_of :
    {S : Type 0} (a b : String) (t s' : S)
    → ◌≡◌ {A = Outcome (String × S)} (ok (a, t)) (ok (b, s'))
    → t ≡ s'
state_of {S} a b t s' e = ap (λ (o : Outcome (String × S)). elim o [ ok x ↦ x.1 | raise x ↦ t ]) e

module _ (blobs : Blobs) (settings : Settings) (id ref : String) (d : JsonFields)
    (s s' : blobs.State) where
  load-save_local :
      save_local_checkpoint blobs settings id d s ≡ ok (ref, s')
      → load_local_checkpoint blobs settings id s' ≡ ok (some (blobs.stored d))
  unfolding save_local_checkpoint load_local_checkpoint
  load-save_local e =
      let (path, p, e') = >>=-eq-ok (local_checkpoint_path settings id) _ e in
      let (t, q, e'') = >>=-eq-ok (blobs.write_file path d s) _ e' in
      ap (λ o. o >>= λ x. read_or_none (blobs.file s' x)) p
      ∙ ap read_or_none (
          blobs.file-write_file path d s s' (q ∙ ap ok (state_of _ _ t s' e'')) path
          ∙ ap (λ b. if b then some (ok (blobs.stored d)) else blobs.file s path) (eq_refl path))

  load-save_s3 :
      save_s3_checkpoint blobs settings id d s ≡ ok (ref, s')
      → load_s3_checkpoint blobs settings id s' ≡ ok (some (blobs.stored d))
  unfolding save_s3_checkpoint load_s3_checkpoint body_or_none
  load-save_s3 e =
      let (u, b, e0) = >>=-eq-ok (needs_bucket settings) _ e in
      let (key, p, e') = >>=-eq-ok (checkpoint_s3_key settings id) _ e0 in
      let (t, q, e'') = >>=-eq-ok (blobs.put_object settings.report_bucket key d s) _ e' in
      ap
        (λ o. o >>= λ v. checkpoint_s3_key settings id >>= λ x.
          body_or_none (blobs.get_object s' settings.report_bucket x))
        b
      ∙ (ap (λ o. o >>= λ x. body_or_none (blobs.get_object s' settings.report_bucket x)) p
          ∙ ap body_or_none (
              blobs.get_object-put_object settings.report_bucket key d s s'
                (q ∙ ap ok (state_of _ _ t s' e'')) key
              ∙ ap
                  (λ b.
                    if b
                    then body (blobs.stored d)
                    else blobs.get_object s settings.report_bucket key)
                  (eq_refl key)))

-- A checkpoint that was saved is loaded by its identifier: the payload's entries, with those of the kind,
-- the identifier and the time in place of any that the payload had.
pub load-save_scan_checkpoint :
    (blobs : Blobs) (settings : Settings) (now id ref : String) (payload : JsonFields)
    (s s' : blobs.State)
    → save_scan_checkpoint blobs settings now id payload s ≡ ok (ref, s')
    → (d : JsonFields) × (load_scan_checkpoint blobs settings id s' ≡ ok (some d))
      × IsCheckpoint now id payload d
unfolding save_scan_checkpoint load_scan_checkpoint
load-save_scan_checkpoint blobs settings now id ref payload s s' e =
    let normalized = normalize_checkpoint_payload now id payload in
    let entries : IsCheckpoint now id payload (blobs.stored normalized) =
      λ name. blobs.find-stored name normalized ∙ normalize-IsCheckpoint now id payload name in
    elim (Bool-cases (id == "")) [
      | inl none_given ↦ absurd (cc (rw none_given at e))
      | inr given ↦ elim (Bool-cases (checkpoint_store settings == "local")) [
        | inl local ↦ (
          blobs.stored normalized,
          rw (given, local)
              (load-save_local blobs settings id ref normalized s s' (rw (given, local) at e)),
          entries,
        )
        | inr elsewhere ↦ elim (Bool-cases (checkpoint_store settings == "s3")) [
          | inl s3 ↦ (
            blobs.stored normalized,
            rw (given, elsewhere, s3)
                (load-save_s3 blobs settings id ref normalized s s'
                  (rw (given, elsewhere, s3) at e)),
            entries,
          )
          | inr unsupported ↦ absurd (cc (rw (given, elsewhere, unsupported) at e))
        ]
      ]
    ]
