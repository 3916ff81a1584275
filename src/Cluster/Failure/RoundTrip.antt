-- ===== src/Cluster/Failure/RoundTrip.antt =====
-- Reading back an encoded failure report, and the inputs that are refused.
use fyro_db.Prelude.{◌^◌, ◌<◌, ◌≡◌, true}
use fyro_db.Prelude.Utf8.{is_utf8}
use fyro_db.Cluster.Failure.{FailureReport}

-- A report by its types: the strings are UTF-8, the epoch is a `u64`.
pub record IsReport (report : FailureReport) : Type 0 where
  pub target : is_utf8 report.target_id ≡ true
  pub reporter : is_utf8 report.reporter_id ≡ true
  pub epoch : report.epoch < 256 ^ 8
