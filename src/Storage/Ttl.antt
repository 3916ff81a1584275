-- ===== src/Storage/Ttl.antt =====
-- The counters of the keys that expire, striped by CPU (src/storage/store/ttl.rs). The number of
-- the CPU is an argument, `none` where the system does not know it; the scan and its clock are
-- left out.
pub mod Live
use fyro_db.Prelude.{
  ℕ, ◌+◌, ◌-◌, ◌%◌, ◌^◌, Bool, not, Option, none, some, List, [], ◌∷◌, ltb, ◌==◌, if◌then◌else◌,
  length, modify, replicate,
}

pub record TtlCounters : Type 0 where
  pub adds : List ℕ
  pub removes : List ℕ

-- `TtlCounters::new`, for the number of stripes
unfoldable pub new_counters : ℕ → TtlCounters
new_counters stripes = record { adds = replicate stripes 0; removes = replicate stripes 0 }

unfoldable pub stripe : Option ℕ → TtlCounters → ℕ
stripe none counters = 0
stripe (some cpu) counters = cpu % length counters.adds

-- `fetch_add` and `fetch_sub` on an `AtomicU64`
abbrev pub fetch_add : ℕ → ℕ → ℕ
fetch_add n value = (value + n) % 2 ^ 64

abbrev pub fetch_sub : ℕ → ℕ → ℕ
fetch_sub n value = (value + 2 ^ 64 - n) % 2 ^ 64

unfoldable pub add_one : Option ℕ → TtlCounters → TtlCounters
unfolding stripe
add_one cpu counters = record counters {
  adds = modify (fetch_add 1) (stripe cpu counters) counters.adds;
}

-- `TtlCounters::remove`
unfoldable pub remove_one : Option ℕ → TtlCounters → TtlCounters
unfolding stripe
remove_one cpu counters = record counters {
  removes = modify (fetch_add 1) (stripe cpu counters) counters.removes;
}

-- `fold(0, u64::wrapping_add)`
unfoldable pub total_onto : ℕ → List ℕ → ℕ
total_onto sum [] = sum
total_onto sum (value ∷ stripes) = total_onto ((sum + value) % 2 ^ 64) stripes

unfoldable pub total_adds : TtlCounters → ℕ
unfolding total_onto
total_adds counters = total_onto 0 counters.adds

unfoldable pub total_removes : TtlCounters → ℕ
unfolding total_onto
total_removes counters = total_onto 0 counters.removes

unfoldable pub live : TtlCounters → ℕ
unfolding total_adds total_removes
live counters = total_adds counters - total_removes counters

unfoldable pub set_live : ℕ → TtlCounters → TtlCounters
unfolding total_adds total_removes
set_live live_ttls counters =
    let target_removes = total_adds counters - live_ttls in
    let current = total_removes counters in
    if ltb current target_removes
    then record counters {
      removes = modify (fetch_add (target_removes - current)) 0 counters.removes;
    }
    else if ltb target_removes current
    then record counters {
      removes = modify (fetch_sub (current - target_removes)) 0 counters.removes;
    }
    else counters

-- A scan that no new key with a time to live overtook sets the count.
unfoldable pub finish_ttl_scan : ℕ → ℕ → TtlCounters → TtlCounters
unfolding total_adds set_live
finish_ttl_scan generation live_ttls counters =
    if not (total_adds counters == generation) then counters else set_live live_ttls counters
