-- ===== src/Tests/Local.antt =====
-- Runs of the local proof.
use kube_data_guard.Common.{◌≡◌, refl, Bool, true, false, text_lt}
use kube_data_guard.Python.{Outcome, ok, raise}
use kube_data_guard.Invariants.Report.{report_status}
use kube_data_guard.LocalDemo.{LocalProofResult, run_local_proof, passed}

abbrev passes : Outcome LocalProofResult → Bool
unfolding passed
passes (ok r) = passed r
passes (raise e) = false

-- With six orders one is missing and one is stale; without an order there is nothing to find.
local_proof_tests : (passes (run_local_proof 6 5) ≡ true) × (passes (run_local_proof 0 5) ≡ false)
unfolding passes run_local_proof text_lt report_status
local_proof_tests = (refl, refl)
