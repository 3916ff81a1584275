-- ===== src/Cluster/Transport/Health.antt =====
-- The health of a peer (src/cluster/transport/health.rs). A method that reads the clock takes the
-- time as an argument.
pub mod Timing
mod Tests
use fyro_db.Prelude.{
  ℕ, ◌+◌, ◌-◌, ◌%◌, ◌^◌, min, Bool, true, false, not, Option, none, some, ltb, ◌==◌, if◌then◌else◌,
}

pub data PeerState : Type 0 where
  is_connecting is_connected is_healthy is_disconnected : PeerState

pub record PeerHealthSnapshot : Type 0 where
  pub state : PeerState
  pub connected_at : Option ℕ
  pub last_pong_at : Option ℕ
  pub consecutive_failures : ℕ
  pub generation : ℕ

pub new_health : PeerHealthSnapshot
new_health = record {
  state = is_disconnected;
  connected_at = none;
  last_pong_at = none;
  consecutive_failures = 0;
  generation = 0;
}

pub connecting : PeerHealthSnapshot → PeerHealthSnapshot
connecting health = record health { state = is_connecting }

pub connected : ℕ → PeerHealthSnapshot → ℕ × PeerHealthSnapshot
connected now health =
    let generation = (health.generation + 1) % 2 ^ 64 in
    (
      generation,
      record health { generation = generation; state = is_connected; connected_at = some now },
    )

pub pong : ℕ → ℕ → PeerHealthSnapshot → PeerHealthSnapshot
pong now generation health =
    if not (health.generation == generation)
    then health
    else record health { state = is_healthy; last_pong_at = some now; consecutive_failures = 0 }

-- `generation.is_some_and(|value| value != health.generation)`
abbrev pub is_stale : Option ℕ → ℕ → Bool
is_stale none current = false
is_stale (some value) current = not (value == current)

pub disconnected : Option ℕ → PeerHealthSnapshot → PeerHealthSnapshot
disconnected generation health =
    if is_stale generation health.generation then health else record health {
      state = is_disconnected;
      consecutive_failures = min (health.consecutive_failures + 1) (2 ^ 64 - 1);
    }

-- `last.elapsed() > timeout`
abbrev pub overdue : ℕ → ℕ → ℕ → Bool
overdue now timeout last = ltb timeout (now - last)

abbrev pub or_else : Option ℕ → Option ℕ → Option ℕ
or_else none b = b
or_else (some a) b = some a

abbrev pub is_none_or : Option ℕ → (ℕ → Bool) → Bool
is_none_or none test = true
is_none_or (some last) test = test last

abbrev pub is_none : Option ℕ → Bool
is_none none = true
is_none (some at) = false

pub is_suspect : ℕ → ℕ → PeerHealthSnapshot → Bool
is_suspect now timeout health =
    let silent =
      is_none_or (or_else health.last_pong_at health.connected_at) (overdue now timeout) in
    elim health.state [
      | is_disconnected ↦ true
      | is_connecting ↦ is_none health.connected_at
      | is_connected ↦ silent
      | is_healthy ↦ silent
    ]
