-- ===== src/Cluster/Transport/Health/Timing.antt =====
-- What holds of a peer's health after any sequence of events, and which events are ignored.
use fyro_db.Prelude.{
  ℕ, ◌-◌, ◌^◌, ◌<◌, ◌≡◌, refl, Bool, false, Option, some, List, [], ◌∷◌, arith, ltb, ◌==◌, ==_refl,
  Bool-cases, inl, inr,
}
use fyro_db.Cluster.Transport.Health.{
  PeerState, is_connecting, is_connected, is_healthy, is_disconnected, PeerHealthSnapshot,
  new_health, connecting, connected, pong, disconnected, is_stale, is_none, is_suspect,
}

-- One event of a peer.
pub data Happens : PeerHealthSnapshot → PeerHealthSnapshot → Type 0 where
  dials : (h : PeerHealthSnapshot) → Happens h (connecting h)
  opens : (now : ℕ) (h : PeerHealthSnapshot) → Happens h (connected now h).1
  answers : (now generation : ℕ) (h : PeerHealthSnapshot) → Happens h (pong now generation h)
  closes : (generation : Option ℕ) (h : PeerHealthSnapshot) → Happens h (disconnected generation h)

pub data Reached : PeerHealthSnapshot → Type 0 where
  fresh : Reached new_health
  after : {h k : PeerHealthSnapshot} → Reached h → Happens h k → Reached k

-- The time that the state is judged by.
abbrev timed : PeerState → Option ℕ → Option ℕ → Bool
timed is_connected opened answered = is_none opened
timed is_healthy opened answered = is_none answered
timed is_connecting opened answered = false
timed is_disconnected opened answered = false

pub record IsTimed (h : PeerHealthSnapshot) : Type 0 where
  pub known : timed h.state h.connected_at h.last_pong_at ≡ false
  pub generation : h.generation < 2 ^ 64

Happens-IsTimed : {h k : PeerHealthSnapshot} → Happens h k → IsTimed h → IsTimed k
Happens-IsTimed (dials h) t =
    unfold connecting in record { known = refl; generation = t.generation }
Happens-IsTimed (opens now h) t =
    unfold connected in record { known = refl; generation = omega arith }
Happens-IsTimed (answers now generation h) t = elim (Bool-cases (h.generation == generation)) [
  | inl e ↦ unfold pong in rw e (record { known = refl; generation = t.generation })
  | inr e ↦ unfold pong in rw e t
]
Happens-IsTimed (closes generation h) t = elim (Bool-cases (is_stale generation h.generation)) [
  | inl e ↦ unfold disconnected in rw e t
  | inr e ↦ unfold disconnected in rw e (record { known = refl; generation = t.generation })
]

-- After any sequence of events a connected peer has the time of its connection, a healthy peer
-- that of its last answer, so that `is_suspect` never judges them for lack of a time; and the
-- generation is a `u64`.
pub Reached-IsTimed : (h : PeerHealthSnapshot) → Reached h → IsTimed h
Reached-IsTimed h fresh = unfold new_health in record { known = refl; generation = omega arith }
Reached-IsTimed h (after r e) = Happens-IsTimed e (Reached-IsTimed _ r)

-- Events that the tasks of the connection before report late.
pub data Late : Type 0 where
  answered : ℕ → Late
  closed : Late

pub late : ℕ → List Late → PeerHealthSnapshot → PeerHealthSnapshot
late generation [] h = h
late generation (answered now ∷ events) h = late generation events (pong now generation h)
late generation (closed ∷ events) h = late generation events (disconnected (some generation) h)

late_lem :
    (generation : ℕ) (events : List Late) (h : PeerHealthSnapshot)
    → (h.generation == generation) ≡ false
    → (generation == h.generation) ≡ false
    → late generation events h ≡ h
unfolding late pong disconnected
late_lem generation [] h e d = refl
late_lem generation (answered now ∷ events) h e d = rw e (late_lem generation events h e d)
late_lem generation (closed ∷ events) h e d = rw d (late_lem generation events h e d)

-- Once a peer is connected again, events that carry the generation of the connection before
-- change nothing, however many come.
pub connected-late :
    (now : ℕ) (events : List Late) (h : PeerHealthSnapshot)
    → h.generation < 2 ^ 64
    → late h.generation events (connected now h).1 ≡ (connected now h).1
connected-late now events h hg =
    late_lem h.generation events (connected now h).1 (unfold connected in ground arith)
      (unfold connected in ground arith)

-- After an answer of the current generation a peer is suspect exactly when more than the timeout
-- has passed since, and its failures are forgotten.
pub is_suspect-pong :
    (now later timeout : ℕ) (h : PeerHealthSnapshot)
    → (is_suspect later timeout (pong now h.generation h) ≡ ltb timeout (later - now))
      × ((pong now h.generation h).consecutive_failures ≡ 0)
unfolding is_suspect pong
is_suspect-pong now later timeout h = rw (==_refl h.generation) (refl, refl)
