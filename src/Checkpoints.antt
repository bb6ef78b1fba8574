-- ===== src/Checkpoints.antt =====
-- src/dataguard/checkpoints.py: the checkpoints of scans, kept as files or as objects of S3. The file
-- system, S3 and the clock are parameters; JSON that was written is read back by them.
pub mod Names
pub mod RoundTrip
use Prim.Native.Char.{Char, code}
use kube_data_guard.Common.{
  ◌≡◌, ◌==◌, ℕ, Bool, true, false, not, ◌&&◌, ◌||◌, Option, none, some, String, nat_eq, leb, prefix,
  if◌then◌else◌,
}
use kube_data_guard.Python.{
  Outcome, ok, raise, value_error, Error, ◌>>=◌, ◌>>◌, guard, is_digit, strip_chars, lower, Json,
  JsonFields, field, no_fields, text, find, set_field,
}
use kube_data_guard.Merkle.{◌&◌}
use kube_data_guard.Scan.{strip, is_alnum}

-- What `get_object` of S3 gives: a body, or an exception with the code of its response.
pub data S3Answer : Type 0 where
  body : JsonFields → S3Answer
  refused : String → Error → S3Answer

-- Files by path and objects by bucket and key. What is read back of a dictionary that was written has
-- the entries of the dictionary, since `json.loads` reads what `json.dumps` writes.
pub record Blobs : Type 1 where
  pub State : Type 0
  pub file : State → String → Option (Outcome JsonFields)
  pub write_file : String → JsonFields → State → Outcome State
  pub get_object : State → String → String → S3Answer
  pub put_object : String → String → JsonFields → State → Outcome State
  pub stored : JsonFields → JsonFields
  pub find-stored : (name : String) (d : JsonFields) → find name (stored d) ≡ find name d
  pub file-write_file :
      (path : String) (d : JsonFields) (s s' : State)
      → write_file path d s ≡ ok s'
      → (q : String) → file s' q ≡ (if path == q then some (ok (stored d)) else file s q)
  pub get_object-put_object :
      (bucket key : String) (d : JsonFields) (s s' : State)
      → put_object bucket key d s ≡ ok s'
      → (q : String)
      → get_object s' bucket q ≡ (if key == q then body (stored d) else get_object s bucket q)

-- `checkpoint_dir` is the path of the directory scan-checkpoints under `report_dir`.
pub record Settings : Type 0 where
  pub report_store : String
  pub checkpoint_dir : String
  pub report_bucket : String
  pub report_prefix : String

abbrev pub is_safe_char : Char → Bool
is_safe_char c = is_alnum c || nat_eq (code c) b'_' || nat_eq (code c) b'.' || nat_eq (code c) b'-'

abbrev pub is_dot_or_dash : Char → Bool
is_dot_or_dash c = nat_eq (code c) b'.' || nat_eq (code c) b'-'

abbrev pub is_slash : Char → Bool
is_slash c = nat_eq (code c) b'/'

-- `re.sub(r"[^A-Za-z0-9_.-]+", "-", text)`; the flag says that the character before was replaced.
unfoldable pub replace_unsafe : Bool → String → String
replace_unsafe replaced String.[] = String.[]
replace_unsafe replaced (String.◌∷◌ c s) =
    let after_safe = replace_unsafe false s in
    let after_unsafe = replace_unsafe true s in
    if is_safe_char c
    then String.◌∷◌ c after_safe
    else if replaced
    then after_unsafe
    else String.◌∷◌ "-" after_unsafe

unfoldable pub safe_checkpoint_id : String → Outcome String
unfolding strip replace_unsafe strip_chars prefix
safe_checkpoint_id checkpoint_id =
    let safe = strip_chars is_dot_or_dash (replace_unsafe false (strip checkpoint_id)) in
    if safe == ""
    then raise (value_error "checkpoint_id must contain at least one safe character")
    else ok (prefix 180 safe)

-- `report_store or "local"`
unfoldable pub checkpoint_store : Settings → String
unfolding strip lower
checkpoint_store s = lower (strip (if s.report_store == "" then "local" else s.report_store))

unfoldable pub local_checkpoint_path : Settings → String → Outcome String
unfolding safe_checkpoint_id
local_checkpoint_path s checkpoint_id = do
  safe ← safe_checkpoint_id checkpoint_id
  ok (s.checkpoint_dir & "/" & safe & ".json")

unfoldable pub checkpoint_s3_key : Settings → String → Outcome String
unfolding safe_checkpoint_id strip_chars
checkpoint_s3_key s checkpoint_id = do
  safe ← safe_checkpoint_id checkpoint_id
  let prefix = strip_chars is_slash s.report_prefix
  let key = "scan-checkpoints/" & safe & ".json"
  ok (if prefix == "" then key else prefix & "/" & key)

abbrev pub checkpoint_kind : String
checkpoint_kind = "KubeDataGuardScanCheckpoint"

-- `now` is the formatted time.
unfoldable pub normalize_checkpoint_payload : String → String → JsonFields → JsonFields
unfolding set_field
normalize_checkpoint_payload now checkpoint_id payload = set_field "updated_at" (text now) (
    set_field "checkpoint_id" (text checkpoint_id)
      (set_field "kind" (text checkpoint_kind) payload))

abbrev pub is_missing_s3_object : String → Bool
is_missing_s3_object code = code == "NoSuchKey" || code == "404" || code == "NotFound"

unfoldable pub body_or_none : S3Answer → Outcome (Option JsonFields)
body_or_none (body d) = ok (some d)
body_or_none (refused code e) = if is_missing_s3_object code then ok none else raise e

abbrev pub read_or_none : Option (Outcome JsonFields) → Outcome (Option JsonFields)
read_or_none none = ok none
read_or_none (some (ok d)) = ok (some d)
read_or_none (some (raise e)) = raise e

abbrev pub needs_bucket : Settings → Outcome (Unit {0})
needs_bucket s =
    guard (not (s.report_bucket == ""))
      (value_error "REPORT_BUCKET is required when REPORT_STORE=s3")

module _ (blobs : Blobs) (settings : Settings) where
  unfoldable pub load_s3_checkpoint : String → blobs.State → Outcome (Option JsonFields)
  unfolding checkpoint_s3_key body_or_none
  load_s3_checkpoint checkpoint_id s = do
    needs_bucket settings
    key ← checkpoint_s3_key settings checkpoint_id
    body_or_none (blobs.get_object s settings.report_bucket key)

  unfoldable pub save_s3_checkpoint :
      String → JsonFields → blobs.State → Outcome (String × blobs.State)
  unfolding checkpoint_s3_key
  save_s3_checkpoint checkpoint_id payload s = do
    needs_bucket settings
    key ← checkpoint_s3_key settings checkpoint_id
    s' ← blobs.put_object settings.report_bucket key payload s
    ok ("s3://" & settings.report_bucket & "/" & key, s')

  unfoldable pub load_local_checkpoint : String → blobs.State → Outcome (Option JsonFields)
  unfolding local_checkpoint_path
  load_local_checkpoint checkpoint_id s = do
    path ← local_checkpoint_path settings checkpoint_id
    read_or_none (blobs.file s path)

  unfoldable pub save_local_checkpoint :
      String → JsonFields → blobs.State → Outcome (String × blobs.State)
  unfolding local_checkpoint_path
  save_local_checkpoint checkpoint_id payload s = do
    path ← local_checkpoint_path settings checkpoint_id
    s' ← blobs.write_file path payload s
    ok ("file://" & path, s')

  unfoldable pub load_scan_checkpoint : String → blobs.State → Outcome (Option JsonFields)
  unfolding checkpoint_store load_local_checkpoint load_s3_checkpoint
  load_scan_checkpoint checkpoint_id s =
      if checkpoint_id == ""
      then ok none
      else if checkpoint_store settings == "local"
      then load_local_checkpoint checkpoint_id s
      else if checkpoint_store settings == "s3"
      then load_s3_checkpoint checkpoint_id s
      else raise (value_error "unsupported REPORT_STORE for checkpoints")

  unfoldable pub save_scan_checkpoint :
      String → String → JsonFields → blobs.State → Outcome (String × blobs.State)
  unfolding checkpoint_store normalize_checkpoint_payload save_local_checkpoint save_s3_checkpoint
  save_scan_checkpoint now checkpoint_id payload s =
      let normalized = normalize_checkpoint_payload now checkpoint_id payload in
      if checkpoint_id == ""
      then raise (value_error "checkpoint_id is required")
      else if checkpoint_store settings == "local"
      then save_local_checkpoint checkpoint_id normalized s
      else if checkpoint_store settings == "s3"
      then save_s3_checkpoint checkpoint_id normalized s
      else raise (value_error "unsupported REPORT_STORE for checkpoints")

  -- The reference of the report is set in the checkpoint that is there, and not in an empty one.
  unfoldable pub save_with_ref :
      String
      → String
      → String
      → Option JsonFields
      → blobs.State
      → Outcome (Option String × blobs.State)
  unfolding set_field save_scan_checkpoint
  save_with_ref now checkpoint_id report_ref none s = ok (none, s)
  save_with_ref now checkpoint_id report_ref (some no_fields) s = ok (none, s)
  save_with_ref now checkpoint_id report_ref (some (field k j d)) s = do
    (ref, s') ←
        save_scan_checkpoint now checkpoint_id
          (set_field "report_ref" (text report_ref) (field k j d)) s
    ok (some ref, s')

  unfoldable pub update_checkpoint_report_ref :
      String → String → String → blobs.State → Outcome (Option String × blobs.State)
  unfolding load_scan_checkpoint save_with_ref
  update_checkpoint_report_ref now checkpoint_id report_ref s =
      if checkpoint_id == "" then ok (none, s) else (do
        payload ← load_scan_checkpoint checkpoint_id s
        save_with_ref now checkpoint_id report_ref payload s)
