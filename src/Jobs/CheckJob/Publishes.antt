-- ===== src/Jobs/CheckJob/Publishes.antt =====
-- What a published status of a check job promises.
use kube_data_guard.Common.{
  ◌≡◌, refl, sym, ap, ◌∙◌, inl, inr, Bool, true, false, Option, none, some, String, ℕ, Bool-cases,
}
use kube_data_guard.Python.{
  Outcome, Error, ok, raise, Json, JsonFields, scalar, bool_value, find, boolean, integer,
  set_field,
}
use kube_data_guard.Python.Clock.{Instant}
use kube_data_guard.Invariants.Report.{DriftReport, healthy}
use kube_data_guard.Invariants.Status.{kubernetes_status}
use kube_data_guard.Checker.{Services}
use kube_data_guard.Checker.Query.{QueryServices}
use kube_data_guard.Jobs.{build_check_failed_job_result, check_failed_status}
use kube_data_guard.Jobs.Honest.{find-set_other, find-set_check_id, verified-healthy}
use kube_data_guard.Jobs.CheckJob.{
  is_exception, JobArgs, JobEnd, publishes, stops, failed_check, job_status, job_of_error,
  end_of_writing, job_of_report, end_of_check, check_of, run_check_job,
}

abbrev status_of : JobEnd → JsonFields → JsonFields
status_of (publishes payload status) default = status
status_of (stops e) default = default

same_status : (a b c d : JsonFields) → publishes a b ≡ publishes c d → b ≡ d
same_status a b c d e = ap (λ x. status_of x b) e

job_status-healthy :
    (j : JobArgs) (r : DriftReport) (ref : String)
    → find "healthy" (job_status j r ref) ≡ some (boolean (healthy r))
unfolding job_status
job_status-healthy j r ref =
    let started = kubernetes_status (some ref) r in
    let observed = set_field "observedGeneration" (integer j.observed_generation) started in
    find-set_check_id "healthy" j.check.check_id observed refl
    ∙ (find-set_other "healthy" "observedGeneration" (integer j.observed_generation) started refl
        ∙ verified-healthy (some ref) r)

job_of_error-unhealthy :
    (j : JobArgs) (at : Instant) (e : Error) (payload status : JsonFields)
    → job_of_error j at e ≡ publishes payload status
    → find "healthy" status ≡ some (boolean false)
unfolding job_of_error build_check_failed_job_result check_failed_status find
job_of_error-unhealthy j at e payload status p = elim (Bool-cases (is_exception e)) [
  | inl f ↦
      let made : publishes _ (check_failed_status at (failed_check j e))
          ≡ publishes payload status =
        rw f at p in
      ap (λ s. find "healthy" s) (sym (same_status _ _ _ _ made))
  | inr f ↦ absurd (cc (rw f at p))
]

some_end : {a b : JobEnd} → some a ≡ some b → a ≡ b
some_end {a} e = ap (λ o. elim o [ none ↦ a | some x ↦ x ]) e

end_of_writing-healthy :
    (j : JobArgs) (r : DriftReport) (written : Outcome String) (payload status : JsonFields)
    → end_of_writing j r written ≡ publishes payload status
    → find "healthy" status ≡ some (boolean (healthy r))
unfolding end_of_writing
end_of_writing-healthy j r (ok ref) payload status p =
    ap (λ x. find "healthy" x) (sym (same_status _ _ _ _ p)) ∙ job_status-healthy j r ref
end_of_writing-healthy j r (raise e) payload status p = absurd (cc p)

bool_of : Option Json → Bool
bool_of (some (scalar (bool_value b))) = b
bool_of _ = false

module _ (s : Services) (qs : QueryServices) (j : JobArgs) (at : Instant) (now : String)
    (written : Outcome String) where
  job_of_report-healthy :
      (checked : DriftReport × qs.blobs.State) (payload status : JsonFields)
      → job_of_report s qs j now written checked ≡ publishes payload status
      → find "healthy" status ≡ some (boolean (healthy checked.0))
  unfolding job_of_report
  job_of_report-healthy checked payload status p =
      end_of_writing-healthy j checked.0 _ payload status p

  end_of_check-healthy :
      (o : Option (Outcome (DriftReport × qs.blobs.State))) (payload status : JsonFields)
      → end_of_check s qs j at now written o ≡ some (publishes payload status)
      → find "healthy" status ≡ some (boolean true)
      → (r : DriftReport) × (state : qs.blobs.State) × (o ≡ some (ok (r, state)))
        × (healthy r ≡ true)
  unfolding bool_of
  end_of_check-healthy none payload status p h = absurd (cc p)
  end_of_check-healthy (some (raise e)) payload status p h =
      let made = job_of_error-unhealthy j at e payload status (some_end p) in
      absurd (cc (ap bool_of (sym h ∙ made)))
  end_of_check-healthy (some (ok (r, state))) payload status p h =
      let made = job_of_report-healthy (r, state) payload status (some_end p) in
      (r, state, refl, ap bool_of (sym made ∙ h))

-- A check job that publishes a healthy status ran a check that returned a healthy report: a check that
-- failed is never published as healthy.
pub run_check_job-healthy :
    (s : Services) (qs : QueryServices) (fuel : ℕ) (j : JobArgs) (at : Instant) (now : String)
    (written : Outcome String) (state : qs.blobs.State) (payload status : JsonFields)
    → run_check_job s qs fuel j at now written state ≡ some (publishes payload status)
    → find "healthy" status ≡ some (boolean true)
    → (r : DriftReport) × (state' : qs.blobs.State) × (check_of s qs fuel j state
        ≡ some (ok (r, state')))
      × (healthy r ≡ true)
unfolding run_check_job
run_check_job-healthy s qs fuel j at now written state payload status p h =
    end_of_check-healthy s qs j at now written (check_of s qs fuel j state) payload status p h
