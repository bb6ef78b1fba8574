-- ===== src/Jobs/Honest.antt =====
-- A repair job tells of a healthy state just when its verification found one.
use kube_data_guard.Common.{
  ◌≡◌, refl, sym, ap, ◌∙◌, false, Option, some, String, Bool-cases, inl, inr, ◌==◌, if◌then◌else◌,
}
use kube_data_guard.Python.{
  Json, JsonFields, find, find-set_field, set_field, text, boolean, integer, or_default, null,
  get_default,
}
use kube_data_guard.Invariants.Report.{DriftReport, healthy, phase}
use kube_data_guard.Invariants.Status.{kubernetes_status}
use kube_data_guard.Jobs.{
  RepairJob, repair_job_status, build_repair_job_result, set_check_id, set_failed, annotated_status,
}

pub find-set_other :
    (k j : String) (v : Json) (d : JsonFields)
    → (j == k) ≡ false
    → find k (set_field j v d) ≡ find k d
find-set_other k j v d n = find-set_field j k v d ∙ ap (λ b. if b then some v else find k d) n

pub find-set_check_id :
    (k check_id : String) (d : JsonFields)
    → ("checkID" == k) ≡ false
    → find k (set_check_id check_id d) ≡ find k d
find-set_check_id k check_id d n = elim (Bool-cases (check_id == "")) [
  | inl e ↦ rw e refl
  | inr e ↦ rw e (find-set_other k "checkID" (text check_id) d n)
]

-- What the job adds to the status leaves those fields alone.
module _ (j : RepairJob) (k : String) (action : ("repairAction" == k) ≡ false)
    (ref : ("repairRef" == k) ≡ false) (check : ("checkID" == k) ≡ false)
    (generation : ("observedGeneration" == k) ≡ false) where
  find-annotated_status :
      find k (annotated_status j)
      ≡ find k (kubernetes_status (some j.repair_report_ref) j.verification)
  unfolding annotated_status
  find-annotated_status =
      find-set_other k "repairAction" _ _ action
      ∙ find-set_other k "repairRef" _ _ ref
      ∙ find-set_check_id k j.check_id _ check
      ∙ find-set_other k "observedGeneration" (integer j.observed_generation)
          (kubernetes_status (some j.repair_report_ref) j.verification) generation

find-failed_healthy : (d : JsonFields) → find "healthy" (set_failed d) ≡ some (boolean false)
find-failed_healthy d =
    find-set_other "healthy" "reason" _ _ refl ∙ find-set_field "healthy" "healthy" _ _

find-failed_phase : (d : JsonFields) → find "phase" (set_failed d) ≡ some (text "RepairFailed")
find-failed_phase d =
    find-set_other "phase" "reason" _ _ refl
    ∙ find-set_other "phase" "healthy" _ _ refl
    ∙ find-set_field "phase" "phase" _ _

pub verified-healthy :
    (ref : Option String) (r : DriftReport)
    → find "healthy" (kubernetes_status ref r) ≡ some (boolean (healthy r))
unfolding kubernetes_status find
verified-healthy ref r = refl

verified-phase :
    (ref : Option String) (r : DriftReport)
    → find "phase" (kubernetes_status ref r) ≡ some (text (phase r))
unfolding kubernetes_status find
verified-phase ref r = refl

status-healthy :
    (j : RepairJob) → find "healthy" (repair_job_status j) ≡ some (boolean (healthy j.verification))
unfolding repair_job_status
status-healthy j = elim (Bool-cases (healthy j.verification)) [
  | inl h ↦
      ap (λ b. find "healthy" (if b then annotated_status j else set_failed (annotated_status j))) h
      ∙ find-annotated_status j "healthy" refl refl refl refl
      ∙ verified-healthy (some j.repair_report_ref) j.verification
  | inr h ↦
      ap (λ b. find "healthy" (if b then annotated_status j else set_failed (annotated_status j))) h
      ∙ find-failed_healthy (annotated_status j)
      ∙ ap (λ b. some (boolean b)) (sym h)
]

status-phase :
    (j : RepairJob)
    → find "phase" (repair_job_status j)
      ≡ some (text (if healthy j.verification then phase j.verification else "RepairFailed"))
unfolding repair_job_status
status-phase j = elim (Bool-cases (healthy j.verification)) [
  | inl h ↦
      ap (λ b. find "phase" (if b then annotated_status j else set_failed (annotated_status j))) h
      ∙ find-annotated_status j "phase" refl refl refl refl
      ∙ verified-phase (some j.repair_report_ref) j.verification
      ∙ ap (λ b. some (text (if b then phase j.verification else "RepairFailed"))) (sym h)
  | inr h ↦
      ap (λ b. find "phase" (if b then annotated_status j else set_failed (annotated_status j))) h
      ∙ find-failed_phase (annotated_status j)
      ∙ ap (λ b. some (text (if b then phase j.verification else "RepairFailed"))) (sym h)
]

-- What the job reports: healthy where the verification is, with its phase, and else not healthy, in the
-- phase RepairFailed; the payload has that phase as its status and the same health.
pub repair_job-healthy :
    (j : RepairJob)
    → (find "healthy" (build_repair_job_result j).1 ≡ some (boolean (healthy j.verification)))
      × (find "phase" (build_repair_job_result j).1
          ≡ some (text (if healthy j.verification then phase j.verification else "RepairFailed")))
      × (find "healthy" (build_repair_job_result j).0 ≡ some (boolean (healthy j.verification)))
      × (find "status" (build_repair_job_result j).0
          ≡ some (text (if healthy j.verification then phase j.verification else "RepairFailed")))
unfolding build_repair_job_result find get_default
repair_job-healthy j = (
  status-healthy j,
  status-phase j,
  ap (λ m. some (or_default m null)) (status-healthy j),
  ap (λ m. some (or_default m null)) (status-phase j),
)
