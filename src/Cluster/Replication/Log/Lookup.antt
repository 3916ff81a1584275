-- ===== src/Cluster/Replication/Log/Lookup.antt =====
-- Looking records of the mutation log up, and replaying them.
use fyro_db.Prelude.{
  ℕ, zero, suc, ◌+◌, ◌-◌, ◌≤◌, ◌<◌, ◌≡◌, refl, sym, ap, ◌∙◌, inl, inr, max, false, ◌&&◌, ◌||◌, none,
  some, List, [], ◌∷◌, ◌++◌, arith, ltb, leb, ◌==◌, if◌then◌else◌, Bool-cases, length,
  length-append, filter, drop, get_elem?,
}
use mathlib.Core.Path.{subst}
use fyro_db.Prelude.Checked.{good, bad, ◌>>=◌}
use fyro_db.Cluster.Replication.{
  MutationRecord, offset_gap, u64_max, max_log_bytes, MutationLog, record_memory_bytes, trim_oldest,
  append, first_offset, replay_from, record_at,
}
use fyro_db.Cluster.Replication.Log.{
  IsRun, memory, IsLog, IsModest, numbered, appended, grown, appended-IsLog, append_parts,
}

-- The record that was appended last is kept, unless it alone is above the limit of bytes.
module _ (size capacity : ℕ) (r : MutationRecord) (room : 0 < capacity)
    (light : record_memory_bytes size r ≤ max_log_bytes) where
  trim_keeps_last :
      (bytes : ℕ) (records : List MutationRecord)
      → bytes ≡ memory size (records ++ r ∷ [])
      → (kept : List MutationRecord) × ((trim_oldest size capacity bytes (records ++ r ∷ [])).1
          ≡ kept ++ r ∷ [])
  unfolding trim_oldest memory
  trim_keeps_last bytes [] e =
      let enough : (ltb capacity 1 || ltb max_log_bytes bytes) ≡ false = ground arith in
      ([], rw (enough, trim_oldest) refl)
  trim_keeps_last bytes (s ∷ records) e =
      elim (Bool-cases
        (ltb capacity (suc (length (records ++ r ∷ []))) || ltb max_log_bytes bytes)) [
          | inl more ↦
              rw (more, trim_oldest)
                (trim_keeps_last (bytes - record_memory_bytes size s) records (omega arith))
          | inr enough ↦ (s ∷ records, rw (enough, trim_oldest) refl)
        ]

get_elem?-append_last {ℓ} :
    {A : Type ℓ} (xs : List A) (x : A) → get_elem? (xs ++ x ∷ []) (length xs) ≡ some x
get_elem?-append_last [] x = refl
get_elem?-append_last (y ∷ xs) x = get_elem?-append_last xs x

get_elem?-drop {ℓ} : {A : Type ℓ} (n : ℕ) (xs : List A) → get_elem? (drop n xs) 0 ≡ get_elem? xs n
get_elem?-drop zero [] = refl
get_elem?-drop zero (x ∷ xs) = refl
get_elem?-drop (suc n) [] = refl
get_elem?-drop (suc n) (x ∷ xs) = get_elem?-drop n xs

drop_nil {ℓ} : {A : Type ℓ} (n : ℕ) → drop {A = A} n [] ≡ []
drop_nil zero = refl
drop_nil (suc n) = refl

-- The records of a run from an offset on.
pub filter-IsRun :
    (offset first : ℕ) (records : List MutationRecord)
    → IsRun first records
    → filter (λ r. leb offset r.offset) records ≡ drop (offset - first) records
filter-IsRun offset first [] h = sym (drop_nil (offset - first))
filter-IsRun offset first (r ∷ records) (hr, h) = elim (Bool-cases (leb offset first)) [
  | inl all ↦
      let here : offset - first ≡ 0 = ground arith in
      let next : offset - suc first ≡ 0 = ground arith in
      let rest : filter (λ r. leb offset r.offset) records ≡ records =
        filter-IsRun offset (suc first) records h ∙ ap (λ k. drop k records) next in
      rw (hr, all, here, rest) refl
  | inr later ↦
      let here : offset - first ≡ suc (offset - suc first) = ground arith in
      rw (hr, later, here) (filter-IsRun offset (suc first) records h)
]

-- The part of the log that the lookups read.
module _ (offset first : ℕ) (log : MutationLog) where
  record_at_run :
      (records : List MutationRecord)
      → IsRun first records
      → 0 < length records
      → 0 < offset
      → record_at offset (record log { records = records })
        ≡ (if ltb offset first then bad offset_gap else good (get_elem? records (offset - first)))
  unfolding record_at
  record_at_run [] h few positive = absurd (omega arith)
  record_at_run (r ∷ records) (hr, h) few positive =
      let least : max offset 1 ≡ offset = omega arith in rw (hr, least) (ground arith)

  first_offset_run :
      (records : List MutationRecord)
      → IsRun first records
      → first + length records ≡ log.next_offset
      → first_offset (record log { records = records }) ≡ first
  unfolding first_offset
  first_offset_run [] h ends = omega arith
  first_offset_run (r ∷ records) (hr, h) ends = hr

module _ (size offset : ℕ) (log : MutationLog) (h : IsLog size log) (positive : 0 < offset) where
  record_at_lem :
      0 < length log.records
      → record_at offset log ≡ (
          if ltb offset h.first
          then bad offset_gap
          else good (get_elem? log.records (offset - h.first)))
  record_at_lem some_left = record_at_run offset h.first log log.records h.run some_left positive

  pub replay_from_lem :
      replay_from offset log
      ≡ (if ltb offset h.first then bad offset_gap else good (drop (offset - h.first) log.records))
  unfolding replay_from
  replay_from_lem =
      let least : max offset 1 ≡ offset = omega arith in
      let first = first_offset_run offset h.first log log.records h.run h.ends in
      rw (first, least, filter-IsRun offset h.first log.records h.run) (ground arith)

-- At a positive offset, in a log that holds a record.
record_at_positive :
    (size offset : ℕ) (log : MutationLog)
    → IsLog size log
    → 0 < length log.records
    → 0 < offset
    → record_at offset log ≡ (replay_from offset log >>= λ records. good (get_elem? records 0))
record_at_positive size offset log h some_left positive =
    rw
      (
        record_at_lem size offset log h positive some_left,
        replay_from_lem size offset log h positive,
      )
      (ground (arith, get_elem?-drop (offset - h.first) log.records))

module _ (first : ℕ) (log : MutationLog) where
  record_at_empty :
      (offset : ℕ) (records : List MutationRecord)
      → length records ≡ 0
      → record_at offset (record log { records = records }) ≡ good none
  unfolding record_at
  record_at_empty offset [] e = refl
  record_at_empty offset (r ∷ records) e = absurd (omega arith)

  record_at_zero :
      (records : List MutationRecord)
      → IsRun first records
      → 0 < length records
      → record_at 0 (record log { records = records })
        ≡ (if ltb 1 first then good none else good (get_elem? records (1 - first)))
  unfolding record_at
  record_at_zero [] h some_left = absurd (omega arith)
  record_at_zero (r ∷ records) (hr, h) some_left =
      let least : max 0 1 ≡ 1 = omega arith in rw (hr, least) refl

replay_from_zero :
    (size : ℕ) (log : MutationLog) (h : IsLog size log)
    → replay_from 0 log ≡ good (drop (1 - h.first) log.records)
unfolding replay_from
replay_from_zero size log h =
    let least : max 0 1 ≡ 1 = omega arith in
    rw (least, filter-IsRun 1 h.first log.records h.run) refl

-- Looking an offset up by its distance from the first record is the same as replaying from it and
-- taking the first record: both refuse an offset that is no longer retained, and both find nothing
-- behind the last record. The exceptions are an empty log, and the offset 0 in a log that does not
-- start at 1 any more: there the lookup finds nothing.
pub record_at-replay_from :
    (size offset : ℕ) (log : MutationLog)
    → IsLog size log
    → record_at offset log ≡ (
        if length log.records == 0 || offset == 0 && ltb 1 (first_offset log)
        then good none
        else replay_from offset log >>= λ records. good (get_elem? records 0))
record_at-replay_from size offset log h = elim (Bool-cases (length log.records == 0)) [
  | inl empty ↦ rw empty (record_at_empty h.first log offset log.records (ground (arith, empty)))
  | inr some_left ↦ elim (Bool-cases (offset == 0)) [
    | inr positive ↦
        rw (some_left, positive)
          (record_at_positive size offset log h (ground (arith, some_left))
            (ground (arith, positive)))
    | inl at_zero ↦
        let here : offset ≡ 0 = ground (arith, at_zero) in
        let first = first_offset_run 0 h.first log log.records h.run h.ends in
        let found : record_at 0 log
            ≡ (if ltb 1 h.first then good none else good (get_elem? log.records (1 - h.first))) =
          record_at_zero h.first log log.records h.run (ground (arith, some_left)) in
        rw (some_left, at_zero, first)
          (ap (λ n. record_at n log) here ∙ found ∙ (elim (Bool-cases (ltb 1 h.first)) [
            | inl late ↦ rw late refl
            | inr early ↦ rw early (
                sym (
                  ap (λ n. replay_from n log >>= λ records. good (get_elem? records 0)) here
                  ∙ rw (replay_from_zero size log h)
                      (ap good (get_elem?-drop (1 - h.first) log.records))))
          ]))
  ]
]

-- The record that `append` accepts last can be looked up at the offset that `append` gave it.
pub record_at-append :
    (size : ℕ) (r : MutationRecord) (log log' : MutationLog) (offset : ℕ)
    → IsLog size log
    → IsModest size r
    → log.next_offset < u64_max
    → record_memory_bytes size r ≤ max_log_bytes
    → append size r log ≡ good (offset, log')
    → record_at offset log' ≡ good (some (record r { offset = offset }))
unfolding record_memory_bytes
record_at-append size r log log' offset h modest few light e =
    let (same, after) = append_parts size r log log' offset few e in
    subst (λ l. record_at offset l ≡ good (some (record r { offset = offset }))) after
      (rw same (last_of (appended-IsLog size r log h modest few)))
  where
    stored : MutationRecord
    stored = numbered log r

    last_of :
        IsLog size (appended size r log)
        → record_at log.next_offset (appended size r log) ≡ good (some stored)
    last_of l =
        let (kept, e) =
          trim_keeps_last size log.capacity stored h.room light _ log.records
            (grown size r log h modest few) in
        let count : length (appended size r log).records ≡ suc (length kept) =
          ap length e ∙ length-append kept (stored ∷ []) ∙ omega arith in
        let place : log.next_offset - l.first ≡ length kept = omega (arith, l.ends) in
        let reached : ltb log.next_offset l.first ≡ false = ground (arith, l.ends) in
        record_at_lem size log.next_offset (appended size r log) l
          (omega (arith, h.ends, h.positive)) (omega arith)
        ∙ rw (reached, place, e, get_elem?-append_last kept stored) refl
