-- ===== src/Services/ChangeReportRun/Finishes.antt =====
-- A claimed change report job is finished, unless the client raises an exception that is not caught.
use contract_change_intel.Prelude.{ℕ, ℤ, Text, Bool, true, false, ◌≡◌}
use contract_change_intel.Store.Rows.{ChangeReportJob, Db, Ctx}
use contract_change_intel.Store.Rows
use contract_change_intel.Jobs.Finish.{AreFinished}
use contract_change_intel.Repositories.ChangeReportJobs
use contract_change_intel.Diffing.Keys.{Unicode}
use contract_change_intel.Impact.{Impact}
use contract_change_intel.Services.ChangeReportRun.MapImpacts.{Tools}
use contract_change_intel.Services.ChangeReportRun.Outcomes.{IsExpected}
use contract_change_intel.Services.ChangeReportRun.Runner.{is_caught}
use contract_change_intel.Llm.Failure.{Outcome, returned, raised}

module _ (t : Tools) (unicode : Unicode) (show_id : ℕ → Text) (ctx : Ctx) (threshold : ℤ) where
  -- How the run of a claimed job ends: the job is finished, or an exception of the client's that is
  -- not caught leaves the jobs as the claim left them.
  abbrev pub Ends : ChangeReportJob → Db → Outcome Bool → Db → Type 0
  Ends job claimed (returned ran) db = (ran ≡ true) × AreFinished job.id db.change_report_jobs
  Ends job claimed (raised e) db =
      (is_caught e ≡ false) × IsExpected t e × (db.change_report_jobs ≡ claimed.change_report_jobs)
