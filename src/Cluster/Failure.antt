-- ===== src/Cluster/Failure.antt =====
-- Failure evidence and its wire form (src/cluster/failure.rs). A method that reads the clock takes
-- the time as an argument, and reads it once; a duration is a number of the same unit.
pub mod Quorum
pub mod RoundTrip
use mathlib.Core.Option
use fyro_db.Prelude.{
  ℕ, zero, suc, ◌+◌, ◌-◌, max, Bool, true, false, ◌&&◌, ◌||◌, not, Option, none, some, List, [],
  ◌∷◌, ◌++◌, ltb, leb, if◌then◌else◌, ◌>>=◌, length, any, filter, bytes_eq, to_be, from_be,
  read_exact,
}
use fyro_db.Prelude.Assoc.{Assoc, entry_eq, lookup, insert}
use fyro_db.Prelude.Utf8.{is_utf8}
use fyro_db.Cluster.Topology.{Text}

pub record FailureReport : Type 0 where
  pub target_id : Text
  pub reporter_id : Text
  pub epoch : ℕ

-- The set of reporters holds each of them once.
pub record Evidence : Type 0 where
  pub reporters : List Text
  pub updated_at : ℕ

pub record FailureTracker : Type 0 where
  pub quorum : ℕ
  pub retention : ℕ
  pub evidence : Assoc (Text × ℕ) Evidence

unfoldable pub new_tracker : ℕ → ℕ → FailureTracker
new_tracker quorum retention = record {
  quorum = max quorum 1;
  retention = retention;
  evidence = [];
}

unfoldable pub fresh : ℕ → ℕ → (Text × ℕ) × Evidence → Bool
fresh now retention (key, value) = leb (now - value.updated_at) retention

unfoldable pub expire : ℕ → FailureTracker → FailureTracker
expire now tracker = record tracker {
  evidence = filter (fresh now tracker.retention) tracker.evidence;
}

-- `HashSet::insert`
unfoldable pub insert_reporter : Text → List Text → List Text
insert_reporter id reporters = if any (bytes_eq id) reporters then reporters else id ∷ reporters

unfoldable pub report : ℕ → FailureReport → FailureTracker → Bool × FailureTracker
unfolding expire insert_reporter
report now r tracker =
    let kept = expire now tracker in
    let found : List Text = elim (lookup (r.target_id, r.epoch) kept.evidence) [
      | none ↦ []
      | some value ↦ value.reporters
    ] in
    let value : Evidence = record {
      reporters = insert_reporter r.reporter_id found;
      updated_at = now;
    } in
    (
      leb kept.quorum (length value.reporters),
      record kept { evidence = insert (r.target_id, r.epoch) value kept.evidence },
    )

unfoldable pub report_count : Text → ℕ → FailureTracker → ℕ
report_count target_id epoch tracker = elim (lookup (target_id, epoch) tracker.evidence) [
  | none ↦ 0
  | some value ↦ length value.reporters
]

unfoldable pub encode_failure_report : FailureReport → Option (List ℕ)
encode_failure_report report =
    if ltb 65535 (length report.target_id) || ltb 65535 (length report.reporter_id)
    then none
    else some (
        to_be 8 report.epoch
        ++ (to_be 2 (length report.target_id)
            ++ (report.target_id ++ (to_be 2 (length report.reporter_id) ++ report.reporter_id))))

abbrev pub is_nil : List ℕ → Bool
is_nil [] = true
is_nil (b ∷ bytes) = false

-- `String::from_utf8(..).ok()`
unfoldable pub from_utf8 : List ℕ → Option Text
from_utf8 bytes = if is_utf8 bytes then some bytes else none

unfoldable pub decode_failure_report : List ℕ → Option FailureReport
unfolding from_utf8
decode_failure_report input = do
  (epoch, input) ← read_exact 8 input
  (target_len, input) ← read_exact 2 input
  (target, input) ← read_exact (from_be target_len) input
  target_id ← from_utf8 target
  (reporter_len, input) ← read_exact 2 input
  (reporter, input) ← read_exact (from_be reporter_len) input
  reporter_id ← from_utf8 reporter
  if not (is_nil input) || is_nil target_id || is_nil reporter_id
      then none
      else some (record { target_id = target_id; reporter_id = reporter_id; epoch = from_be epoch })
