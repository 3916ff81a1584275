-- ===== src/Cluster/Failure/Quorum.antt =====
-- Which reporters a tracker counts, and when they make a quorum.
use fyro_db.Prelude.{
  ℕ, ◌+◌, ◌≤◌, ◌≡◌, refl, sym, ap, ◌∙◌, Bool, true, false, ◌&&◌, ◌||◌, not, Option, none, some,
  List, [], ◌∷◌, arith, leb, ◌==◌, if◌then◌else◌, length, any, filter, All, filter-All, bytes_eq,
  bytes_eq_iff, Bool-cases, ◌⊎◌, inl, inr, le→leb,
}
use fyro_db.Prelude.Assoc.{
  Assoc, entry_eq, entry_beq_iff, lookup, lookup-insert, lookup-insert_self, All-insert,
}
use fyro_db.Cluster.Topology.{Text}
use fyro_db.Cluster.Failure.{
  FailureReport, Evidence, FailureTracker, new_tracker, fresh, expire, insert_reporter, report,
  report_count,
}

-- The reports in the order they arrive, each with its time.
unfoldable pub run : List (ℕ × FailureReport) → FailureTracker → FailureTracker
run [] tracker = tracker
run ((now, r) ∷ reports) tracker = run reports (report now r tracker).1

-- Every time lies in a window of the length of the retention.
abbrev pub InWindow : ℕ → ℕ → List (ℕ × FailureReport) → Type 0
InWindow start retention = All (λ e. (start ≤ e.0) × (e.0 ≤ start + retention))

abbrev pub about : Text → ℕ → FailureReport → Bool
about target epoch r = bytes_eq r.target_id target && r.epoch == epoch

-- Whether some report of the list names this reporter for the target at the epoch.
abbrev pub reported : Text → ℕ → Text → List (ℕ × FailureReport) → Bool
reported target epoch id = any (λ e. about target epoch e.1 && bytes_eq id e.1.reporter_id)

abbrev pub distinct : List Text → Bool
distinct [] = true
distinct (x ∷ xs) = not (any (bytes_eq x) xs) && distinct xs

Recent : ℕ → FailureTracker → Type 0
Recent start tracker = All (λ e. start ≤ e.1.updated_at) tracker.evidence

reporters_at : Text → ℕ → FailureTracker → List Text
reporters_at target epoch tracker = elim (lookup (target, epoch) tracker.evidence) [
  | none ↦ []
  | some value ↦ value.reporters
]

All-fresh :
    (start now retention : ℕ) (m : Assoc (Text × ℕ) Evidence)
    → now ≤ start + retention
    → All (λ e. start ≤ e.1.updated_at) m
    → All (λ e. fresh now retention e ≡ true) m
unfolding fresh
All-fresh start now retention [] hn h = tt
All-fresh start now retention ((key, value) ∷ m) hn (hv, h) =
    (le→leb _ _ (omega arith), All-fresh start now retention m hn h)

kept_all :
    (start now : ℕ) (tracker : FailureTracker)
    → now ≤ start + tracker.retention
    → Recent start tracker
    → filter (fresh now tracker.retention) tracker.evidence ≡ tracker.evidence
unfolding Recent
kept_all start now tracker hn h =
    filter-All _ tracker.evidence (All-fresh start now tracker.retention tracker.evidence hn h)

reporters_at-report :
    (start now : ℕ) (r : FailureReport) (target : Text) (epoch : ℕ) (tracker : FailureTracker)
    → now ≤ start + tracker.retention
    → Recent start tracker
    → reporters_at target epoch (report now r tracker).1 ≡ (
        if about target epoch r
        then insert_reporter r.reporter_id (reporters_at target epoch tracker)
        else reporters_at target epoch tracker)
unfolding report reporters_at
reporters_at-report start now r target epoch tracker hn h = rw (kept_all start now tracker hn h) (
    ground (
      arith,
      lookup-insert (r.target_id, r.epoch) (target, epoch)
          (record {
            reporters = insert_reporter r.reporter_id (reporters_at r.target_id r.epoch tracker);
            updated_at = now;
          })
          tracker.evidence,
      same_entry,
    ))
  where
    same_entry :
        about target epoch r ≡ true
        → reporters_at r.target_id r.epoch tracker ≡ reporters_at target epoch tracker
    same_entry e =
        ap (λ (k : Text × ℕ). reporters_at k.0 k.1 tracker)
          ((entry_beq_iff (r.target_id, r.epoch) (target, epoch)).0 e)

Recent-report :
    (start now : ℕ) (r : FailureReport) (tracker : FailureTracker)
    → start ≤ now
    → now ≤ start + tracker.retention
    → Recent start tracker
    → Recent start (report now r tracker).1
unfolding report
Recent-report start now r tracker hs hn h = rw (kept_all start now tracker hn h) (
    unfold Recent in All-insert _ (r.target_id, r.epoch) _ tracker.evidence hs (unfold Recent in h))

-- `report` answers whether the reporters that `report_count` then counts for the same target and
-- epoch are at least the quorum.
pub report-report_count :
    (now : ℕ) (r : FailureReport) (tracker : FailureTracker)
    → (report now r tracker).0
      ≡ leb tracker.quorum (report_count r.target_id r.epoch (report now r tracker).1)
unfolding report report_count expire
report-report_count now r tracker = sym (ap counted (lookup-insert_self (r.target_id, r.epoch) _ _))
  where
    counted : Option Evidence → Bool
    counted o = leb tracker.quorum (elim o [ none ↦ 0 | some value ↦ length value.reporters ])

insert_reporter_lem :
    (id : Text) (reporters : List Text)
    → distinct reporters ≡ true
    → (distinct (insert_reporter id reporters) ≡ true)
      × ((x : Text)
          → any (bytes_eq x) (insert_reporter id reporters)
            ≡ bytes_eq x id || any (bytes_eq x) reporters)
unfolding insert_reporter
insert_reporter_lem id reporters h = elim (Bool-cases (any (bytes_eq id) reporters)) [
  | inl e ↦ rw e (h, λ x. absorbed e x (Bool-cases (bytes_eq x id)))
  | inr e ↦ rw e (ground arith, λ x. refl)
]
  where
    absorbed :
        any (bytes_eq id) reporters ≡ true
        → (x : Text) → (bytes_eq x id ≡ true) ⊎ (bytes_eq x id ≡ false)
        → any (bytes_eq x) reporters ≡ bytes_eq x id || any (bytes_eq x) reporters
    absorbed found x (inl e) = let same : x ≡ id = (bytes_eq_iff x id).0 e in rw (e, same) found
    absorbed found x (inr e) = rw e refl

-- The reporters a tracker has for a target at an epoch after some reports.
pub record Witnessed (target : Text) (epoch : ℕ) (reports : List (ℕ × FailureReport))
    (tracker : FailureTracker) : Type 0 where
  pub reporters : List Text
  pub counted : report_count target epoch tracker ≡ length reporters
  pub once : distinct reporters ≡ true
  pub exactly : (id : Text) → any (bytes_eq id) reporters ≡ reported target epoch id reports

added :
    (start now : ℕ) (r : FailureReport) (target : Text) (epoch : ℕ) (tracker : FailureTracker)
    → now ≤ start + tracker.retention
    → Recent start tracker
    → distinct (reporters_at target epoch tracker) ≡ true
    → (distinct (reporters_at target epoch (report now r tracker).1) ≡ true)
      × ((id : Text)
          → any (bytes_eq id) (reporters_at target epoch (report now r tracker).1)
            ≡ any (bytes_eq id) (reporters_at target epoch tracker)
              || (about target epoch r && bytes_eq id r.reporter_id))
added start now r target epoch tracker hn hr hd =
    rw (reporters_at-report start now r target epoch tracker hn hr)
      (elim (Bool-cases (about target epoch r)) [
        | inl e ↦
            let (a, b) = insert_reporter_lem r.reporter_id (reporters_at target epoch tracker) hd in
            rw e (a, λ id. b id ∙ ground arith)
        | inr e ↦ rw e (hd, λ id. ground arith)
      ])

run_lem :
    (start target_epoch : ℕ) (target : Text) (reports : List (ℕ × FailureReport))
    (tracker : FailureTracker)
    → InWindow start tracker.retention reports
    → Recent start tracker
    → distinct (reporters_at target target_epoch tracker) ≡ true
    → (distinct (reporters_at target target_epoch (run reports tracker)) ≡ true)
      × ((id : Text)
          → any (bytes_eq id) (reporters_at target target_epoch (run reports tracker))
            ≡ any (bytes_eq id) (reporters_at target target_epoch tracker)
              || reported target target_epoch id reports)
unfolding run
run_lem start epoch target [] tracker hw hr hd = (hd, λ id. ground arith)
run_lem start epoch target ((now, r) ∷ reports) tracker (ht, hw) hr hd =
    let this = added start now r target epoch tracker ht.1 hr hd in
    let rest =
      run_lem start epoch target reports (report now r tracker).1 (unfold report expire in hw)
        (Recent-report start now r tracker ht.0 ht.1 hr) this.0 in
    (rest.0, λ id. rest.1 id ∙ ground (arith, this.1 id))

-- Starting from an empty tracker, when all reports arrive within one retention period, the count
-- for a target at an epoch is the number of different reporters that named it.
pub run-Witnessed :
    (quorum retention start : ℕ) (target : Text) (epoch : ℕ) (reports : List (ℕ × FailureReport))
    → InWindow start retention reports
    → Witnessed target epoch reports (run reports (new_tracker quorum retention))
run-Witnessed quorum retention start target epoch reports h =
    let tracker = run reports (new_tracker quorum retention) in
    let (once, exactly) =
      run_lem start epoch target reports (new_tracker quorum retention) (unfold new_tracker in h)
        (unfold new_tracker Recent in tt) (unfold new_tracker reporters_at lookup in refl) in
    record {
      reporters = reporters_at target epoch tracker;
      counted =
          unfold report_count reporters_at in counts (lookup (target, epoch) tracker.evidence);
      once = once;
      exactly = λ id. exactly id ∙ unfold new_tracker reporters_at lookup in refl;
    }
  where
    counts :
        (o : Option Evidence)
        → (elim o [ none ↦ 0 | some value ↦ length value.reporters ])
          ≡ length (elim o [ none ↦ [] | some value ↦ value.reporters ])
    counts none = refl
    counts (some value) = refl
