-- ===== src/Invariants/Status/Counts.antt =====
-- The status of a report and its count of drift agree.
use kube_data_guard.Common.{◌≡◌, ◌==◌, eq_iff, true, ◌↔◌, arith, nat_eq, ◌&&◌, Bool-cases, inl, inr}
use kube_data_guard.Invariants.Report.{
  DriftReport, check_complete, drift_count, report_status, healthy,
}

healthy-report_status :
    (r : DriftReport) → healthy r ≡ (r.check_status == check_complete && nat_eq (drift_count r) 0)
unfolding healthy report_status
healthy-report_status r = elim (Bool-cases (r.check_status == check_complete)) [
  | inl e ↦ elim (Bool-cases (nat_eq (drift_count r) 0)) [ inl z ↦ rw (e, z) | inr z ↦ rw (e, z) ]
  | inr e ↦ elim (Bool-cases (r.check_status == "failed")) [ inl z ↦ rw (e, z) | inr z ↦ rw (e, z) ]
]

pub healthy_iff :
    (r : DriftReport)
    → (healthy r ≡ true) ↔ ((r.check_status ≡ check_complete) × (drift_count r ≡ 0))
healthy_iff r = ground (arith, healthy-report_status r, eq_iff r.check_status check_complete)
