-- ===== src/Reporting/Retention.antt =====
-- What the retention of the local report files leaves.
use Prim.Native.String.{String}
use kube_data_guard.Common.{◌≡◌, ℕ, ◌-◌, true, false, Option, List, take, ltb, Has}
use kube_data_guard.Python.Clock.{Instant}
use kube_data_guard.Reporting.{ReportFile, is_too_old}

module _ (report_count : ℕ) (cutoff : Option Instant) where
  abbrev IsFresh : ℕ → List ReportFile → ReportFile → Type 0
  IsFresh index reports f =
      (is_too_old cutoff f ≡ false)
      × (ltb 0 report_count ≡ true → Has f (take (report_count - index) reports))
