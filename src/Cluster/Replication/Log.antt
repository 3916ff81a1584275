-- ===== src/Cluster/Replication/Log.antt =====
-- The mutation log keeps a run of consecutive records that ends before its next offset.
pub mod Lookup
use fyro_db.Prelude.{
  ℕ, zero, suc, ◌+◌, ◌-◌, ◌*◌, ◌^◌, ◌≤◌, ◌<◌, ◌≡◌, ◌≢◌, refl, sym, ap, ◌∙◌, inl, inr, min, max,
  Bool, true, false, ◌&&◌, ◌||◌, not, Option, none, some, List, [], ◌∷◌, ◌++◌, arith, ltb, leb,
  ◌==◌, if◌then◌else◌, Bool-cases, length, length-append, filter, drop, get_elem?,
}
use mathlib.Core.Path.{subst}
use fyro_db.Prelude.Checked.{Checked, good, bad, ◌>>=◌}
use fyro_db.Cluster.Replication.{
  MutationRecord, LogError, offset_gap, offset_regression, u64_max, next_u64, max_log_bytes,
  MutationLog, new_log, add_usize, record_memory_bytes, trim_oldest, append, first_offset,
  replay_from, record_at,
}

-- The records have the offsets `from`, `from + 1` and so on.
abbrev pub IsRun : ℕ → List MutationRecord → Type 0
IsRun from [] = Unit
IsRun from (r ∷ records) = (r.offset ≡ from) × IsRun (suc from) records

unfoldable pub memory : ℕ → List MutationRecord → ℕ
memory size [] = 0
memory size (r ∷ records) = record_memory_bytes size r + memory size records

pub record IsLog (size : ℕ) (log : MutationLog) : Type 0 where
  pub first : ℕ
  pub positive : 0 < first
  pub run : IsRun first log.records
  pub ends : first + length log.records ≡ log.next_offset
  pub room : 0 < log.capacity
  pub within : length log.records ≤ log.capacity
  pub counted : log.bytes ≡ memory size log.records
  pub small : log.bytes ≤ max_log_bytes

-- What the two vectors and the struct of a record occupy stays far below the address space.
abbrev pub IsModest : ℕ → MutationRecord → Type 0
IsModest size r = length r.key + length r.value + size < 2 ^ 63

record_memory_bytes_lem :
    (size : ℕ) (r : MutationRecord)
    → IsModest size r
    → record_memory_bytes size r ≡ length r.key + length r.value + size
unfolding record_memory_bytes
record_memory_bytes_lem size r h = omega arith

memory-append :
    (size : ℕ) (records : List MutationRecord) (r : MutationRecord)
    → memory size (records ++ r ∷ []) ≡ memory size records + record_memory_bytes size r
unfolding memory
memory-append size [] r = omega arith
memory-append size (s ∷ records) r = omega (arith, memory-append size records r)

IsRun-append :
    (from : ℕ) (records : List MutationRecord) (r : MutationRecord)
    → IsRun from records
    → r.offset ≡ from + length records
    → IsRun from (records ++ r ∷ [])
IsRun-append from [] r h e = (e ∙ omega arith, tt)
IsRun-append from (s ∷ records) r (hs, h) e =
    (hs, IsRun-append (suc from) records r h (e ∙ omega arith))

-- What the trimming leaves of a run of records whose memory is counted.
record IsTrimmed (size capacity next : ℕ) (result : ℕ × List MutationRecord) : Type 0 where
  first : ℕ
  positive : 0 < first
  run : IsRun first result.1
  ends : first + length result.1 ≡ next
  within : length result.1 ≤ capacity
  counted : result.0 ≡ memory size result.1
  small : result.0 ≤ max_log_bytes

trim_oldest-IsTrimmed :
    (size capacity bytes first : ℕ) (records : List MutationRecord)
    → 0 < first
    → IsRun first records
    → bytes ≡ memory size records
    → IsTrimmed size capacity (first + length records) (trim_oldest size capacity bytes records)
unfolding trim_oldest memory
trim_oldest-IsTrimmed size capacity bytes first [] hf h e = record {
  first = first;
  positive = hf;
  run = tt;
  ends = refl;
  within = omega arith;
  counted = e;
  small = omega arith;
}
trim_oldest-IsTrimmed size capacity bytes first (r ∷ records) hf (hr, h) e =
    elim (Bool-cases (ltb capacity (suc (length records)) || ltb max_log_bytes bytes)) [
      | inl more ↦
          let t =
            trim_oldest-IsTrimmed size capacity (bytes - record_memory_bytes size r) (suc first)
              records (omega arith) h (omega arith) in
          rw (more, trim_oldest)
            (record {
              first = t.first;
              positive = t.positive;
              run = t.run;
              ends = t.ends ∙ omega arith;
              within = t.within;
              counted = t.counted;
              small = t.small;
            })
      | inr enough ↦
          rw (enough, trim_oldest)
            (record {
              first = first;
              positive = hf;
              run = (hr, h);
              ends = refl;
              within = ground arith;
              counted = e;
              small = ground arith;
            })
    ]

pub new_log-IsLog : (size capacity : ℕ) → IsLog size (new_log capacity)
unfolding new_log memory
new_log-IsLog size capacity = record {
  first = 1;
  positive = omega arith;
  run = tt;
  ends = refl;
  room = omega arith;
  within = omega arith;
  counted = refl;
  small = omega arith;
}

-- The record as the log stores it.
abbrev pub numbered : MutationLog → MutationRecord → MutationRecord
numbered log r = record r { offset = log.next_offset }

-- The log that `append` makes, if it accepts the record.
abbrev pub appended : ℕ → MutationRecord → MutationLog → MutationLog
appended size r log =
    let trimmed =
      trim_oldest size log.capacity
        (add_usize log.bytes (record_memory_bytes size (numbered log r)))
        (log.records ++ numbered log r ∷ []) in
    record log { next_offset = next_u64 log.next_offset; bytes = trimmed.0; records = trimmed.1 }

module _ (size : ℕ) (r : MutationRecord) (log : MutationLog) where
  append_fresh :
      (not (r.offset == 0) && ltb r.offset log.next_offset) ≡ false
      → append size r log ≡ good (next_u64 log.next_offset - 1, appended size r log)
  unfolding append
  append_fresh now = rw now refl

  pub append_lem :
      r.offset ≡ 0
      → log.next_offset < u64_max
      → append size r log ≡ good (log.next_offset, appended size r log)
  append_lem unnumbered few =
      let now : (not (r.offset == 0) && ltb r.offset log.next_offset) ≡ false = ground arith in
      let offset : next_u64 log.next_offset - 1 ≡ log.next_offset = omega arith in
      append_fresh now ∙ rw offset refl

  module _ (h : IsLog size log) (modest : IsModest size r) (few : log.next_offset < u64_max) where
    pub grown :
        add_usize log.bytes (record_memory_bytes size (numbered log r))
        ≡ memory size (log.records ++ numbered log r ∷ [])
    grown = omega (
      arith,
      h.small,
      h.counted,
      record_memory_bytes_lem size (numbered log r) modest,
      memory-append size log.records (numbered log r),
    )

    pub appended-IsLog : IsLog size (appended size r log)
    appended-IsLog = record {
      first = t.first;
      positive = t.positive;
      run = t.run;
      ends = t.ends ∙ ends;
      room = h.room;
      within = t.within;
      counted = t.counted;
      small = t.small;
    }
      where
        t : IsTrimmed size log.capacity (h.first + length (log.records ++ numbered log r ∷ [])) (
            trim_oldest size log.capacity
              (add_usize log.bytes (record_memory_bytes size (numbered log r)))
              (log.records ++ numbered log r ∷ []))
        t =
            trim_oldest-IsTrimmed size log.capacity _ h.first _ h.positive
              (IsRun-append h.first log.records (numbered log r) h.run (sym h.ends)) grown

        ends : h.first + length (log.records ++ numbered log r ∷ []) ≡ next_u64 log.next_offset
        ends = omega (arith, h.ends, length-append log.records (numbered log r ∷ []))

-- What an accepted `append` answers and leaves.
pub append_parts :
    (size : ℕ) (r : MutationRecord) (log log' : MutationLog) (offset : ℕ)
    → log.next_offset < u64_max
    → append size r log ≡ good (offset, log')
    → (offset ≡ log.next_offset) × (appended size r log ≡ log')
unfolding append
append_parts size r log log' offset few e =
    elim (Bool-cases (not (r.offset == 0) && ltb r.offset log.next_offset)) [
      | inl stale ↦ absurd (ground arith)
      | inr fresh ↦
          (ground (arith, append_fresh size r log fresh), cc (append_fresh size r log fresh))
    ]

-- Whatever `append` does, the log stays well formed: consecutive offsets that end before the
-- next one, within the capacity and the limit of bytes, and the bytes counted exactly.
pub append-IsLog :
    (size : ℕ) (r : MutationRecord) (log log' : MutationLog) (offset : ℕ)
    → IsLog size log
    → IsModest size r
    → log.next_offset < u64_max
    → append size r log ≡ good (offset, log')
    → IsLog size log'
unfolding append
append-IsLog size r log log' offset h modest few e =
    subst (IsLog size) (append_parts size r log log' offset few e).1
      (appended-IsLog size r log h modest few)
