-- ===== src/Cluster/Server/Replica/History.antt =====
-- What a replica's keys are after any frames of its primary.
use mathlib.Core.Path.{subst}
use fyro_db.Prelude.{
  ℕ, zero, suc, ◌≤◌, ◌≡◌, refl, sym, ap, ◌∙◌, inl, inr, max, Bool, true, false, ◌&&◌, not, Option,
  none, some, List, [], ◌∷◌, ◌++◌, arith, ltb, leb, ◌==◌, ◌>>=◌, Bool-cases, Option-cases, All,
}
use fyro_db.Prelude.Checked.{Checked, good, bad}
use fyro_db.Cluster.Topology.{Text}
use fyro_db.Cluster.Transport.Codec.{MessageType, Frame}
use fyro_db.Cluster.Replication.{
  MutationRecord, ReplicationMessage, begin_stream, entry_of, ack_of, snapshot_of, finish_stream,
  ApplyError, ReplicaApplier, next_u64, try_apply,
}
use fyro_db.Cluster.Replication.Wire.{ReplicationCodecError, decode_replication_message}
use fyro_db.Cluster.Replication.Delivery.{Replica, Belongs}
use fyro_db.Storage.Store.{Call}
use fyro_db.Cluster.Server.{PeerContext}
use fyro_db.Cluster.Server.Session.{
  Keyspace, Session, close, Moment, Handled, refresh, on_migrate_begin, on_migrate_finish, on_entry,
  on_begin, is_topology, dispatch, handle, serve,
}
use fyro_db.Cluster.Server.Replica.Handlers.{
  replica, view, Kept, on_failure_report-Kept, on_topology-Kept, on_migrate_begin-Kept,
  on_migrate_finish-Kept, on_begin-Kept, on_entry-stranger, refresh-Kept,
}

-- The record that a frame carries, if it carries one.
abbrev pub carried : Checked ReplicationCodecError ReplicationMessage → Option MutationRecord
carried (bad reason) = none
carried (good (entry_of r)) = some r
carried (good (begin_stream epoch from_offset identity)) = none
carried (good (ack_of applied_offset)) = none
carried (good (snapshot_of epoch offset payload)) = none
carried (good (finish_stream offset)) = none

-- What a frame carries is a record of the history.
abbrev pub OfHistory : (ℕ → MutationRecord) → Option MutationRecord → Type 0
OfHistory history none = Unit
OfHistory history (some r) = Belongs history r

-- The frames that bring no mutations of slots or snapshots.
abbrev pub is_plain : MessageType → Bool
is_plain MessageType.migrate_chunk = false
is_plain MessageType.replication_snapshot = false
is_plain _ = true

-- The keys are what the first mutations of a history made of the first keys, each applied once, in
-- order and without a failure, whatever the clock was.
abbrev pub Replayed : {S : Type 0} → Keyspace S → S → (ℕ → MutationRecord) → ℕ → S → Type 0
Replayed ks empty history zero keys = keys ≡ empty
Replayed {S} ks empty history (suc n) keys =
    (call : Call) × (before : S) × Replayed ks empty history n before
    × (ks.apply call (history (suc n)) before ≡ good keys)

module _ {S : Type 0} (ctx : PeerContext) (remote_id : Text) (ks : Keyspace S) (empty : S)
    (history : ℕ → MutationRecord) where
  abbrev pub IsPrefix : Replica S → Type 0
  IsPrefix replica = Replayed ks empty history replica.0.applied_offset replica.1

  abbrev Good : Option (Handled S) → ℕ → Type 0
  Good none before = Unit
  Good (some h) before = IsPrefix (replica h.2) × (before ≤ h.2.applier.applied_offset)

  same :
      (h : Handled S) (session : Session S)
      → replica h.2 ≡ replica session
      → IsPrefix (replica session)
      → Good (some h) session.applier.applied_offset
  same h session e ok =
      subst (λ r. IsPrefix r × (session.applier.applied_offset ≤ r.0.applied_offset)) (sym e)
        (ok, omega arith)

  -- One entry of the history: it is late, it leaves a gap, it fails, or it is the next one.
  abbrev Left : ℕ → Checked ApplyError (Bool × Replica S) → Type 0
  Left before (bad reason) = Unit
  Left before (good (changed, after)) = IsPrefix after × (before ≤ after.0.applied_offset)

  try_apply-Left :
      (call : Call) (r : MutationRecord) (applier : ReplicaApplier) (keys : S)
      → Belongs history r
      → IsPrefix (applier, keys)
      → Left applier.applied_offset (try_apply (ks.apply call) r (applier, keys))
  unfolding try_apply
  try_apply-Left call r applier keys (e, few) ok =
      elim (Bool-cases (leb r.offset applier.applied_offset)) [
        | inl late ↦ rw (late, try_apply) (ok, omega arith)
        | inr new ↦ elim (Bool-cases (r.offset == next_u64 applier.applied_offset)) [
          | inr gap ↦ rw (new, gap, try_apply) tt
          | inl next ↦ applied new next (ks.apply call r keys) refl (ground (arith, new, next, few))
        ]
      ]
    where
      applied :
          leb r.offset applier.applied_offset ≡ false
          → (r.offset == next_u64 applier.applied_offset) ≡ true
          → (result : Checked ApplyError S) → ks.apply call r keys ≡ result
          → r.offset ≡ suc applier.applied_offset
          → Left applier.applied_offset (try_apply (ks.apply call) r (applier, keys))
      applied new next (bad reason) made at = rw (new, next, try_apply, made) tt
      applied new next (good after) made at =
          let here : history (suc applier.applied_offset) ≡ r = sym (e ∙ ap history at) in
          let whole : Replayed ks empty history (suc applier.applied_offset) after =
            (call, keys, ok, ap (λ m. ks.apply call m keys) here ∙ made) in
          rw (new, next, try_apply, made)
            (subst (λ n. Replayed ks empty history n after) (sym at) whole, omega (arith, at))

  on_entry-Good :
      (call : Call) (frame : Frame) (session : Session S)
      → OfHistory history (carried (decode_replication_message frame.payload))
      → IsPrefix (replica session)
      → Good (some (on_entry ctx remote_id ks call frame session)) session.applier.applied_offset
  unfolding on_entry
  on_entry-Good call frame session belongs ok =
      received (decode_replication_message frame.payload) refl
    where
      unread :
          replica (on_entry ctx remote_id ks call frame session).2 ≡ replica session
          → Good
              (some (on_entry ctx remote_id ks call frame session))
              session.applier.applied_offset
      unread e = same (on_entry ctx remote_id ks call frame session) session e ok

      tried :
          (r : MutationRecord)
          → decode_replication_message frame.payload ≡ good (entry_of r)
          → session.source_allowed ≡ true
          → (result : Checked ApplyError (Bool × Replica S))
          → try_apply (ks.apply call) r (replica session) ≡ result
          → Left session.applier.applied_offset result
          → Good
              (some (on_entry ctx remote_id ks call frame session))
              session.applier.applied_offset
      tried r e allowed (bad reason) made left = unread (rw (e, on_entry, allowed, made) refl)
      tried r e allowed (good (changed, after)) made left = rw (e, on_entry, allowed, made) left

      received :
          (result : Checked ReplicationCodecError ReplicationMessage)
          → decode_replication_message frame.payload ≡ result
          → Good
              (some (on_entry ctx remote_id ks call frame session))
              session.applier.applied_offset
      received (bad reason) e = unread (rw (e, on_entry) refl)
      received (good (begin_stream epoch from_offset identity)) e = unread (rw (e, on_entry) refl)
      received (good (ack_of applied_offset)) e = unread (rw (e, on_entry) refl)
      received (good (snapshot_of epoch offset payload)) e = unread (rw (e, on_entry) refl)
      received (good (finish_stream offset)) e = unread (rw (e, on_entry) refl)
      received (good (entry_of r)) e = elim (Bool-cases session.source_allowed) [
        | inr stranger ↦ unread (
            ap (λ (v : Replica S × ℕ). v.0)
              (on_entry-stranger ctx remote_id ks call frame session stranger))
        | inl allowed ↦ tried r e allowed (try_apply (ks.apply call) r (replica session)) refl (
            try_apply-Left call r session.applier session.keys
              (subst (λ m. OfHistory history (carried m)) e belongs) ok)
      ]

  kept :
      (result : Option (Handled S)) (session : Session S)
      → Kept ctx remote_id ks (view session) result
      → IsPrefix (replica session)
      → Good result session.applier.applied_offset
  kept none session e ok = tt
  kept (some h) session e ok = same h session (ap (λ (v : Replica S × ℕ). v.0) e) ok

  dispatch-Good :
      (moment : Moment) (epoch : ℕ) (message_type : MessageType) (frame : Frame)
      (session : Session S)
      → is_plain message_type ≡ true
      → OfHistory history (carried (decode_replication_message frame.payload))
      → IsPrefix (replica session)
      → Good
          (dispatch ctx remote_id ks moment epoch message_type frame session)
          session.applier.applied_offset
  unfolding dispatch
  dispatch-Good moment epoch MessageType.failure_report frame session plain belongs ok =
      kept _ session (on_failure_report-Kept ctx remote_id ks moment.now frame session) ok
  dispatch-Good moment epoch MessageType.topology frame session plain belongs ok =
      kept _ session (on_topology-Kept ctx remote_id ks frame session) ok
  dispatch-Good moment epoch MessageType.replication_entry frame session plain belongs ok =
      on_entry-Good (moment.calls 0) frame session belongs ok
  dispatch-Good moment epoch MessageType.migrate_begin frame session plain belongs ok =
      same (on_migrate_begin ctx remote_id epoch frame session) session
        (ap (λ (v : Replica S × ℕ). v.0)
          (on_migrate_begin-Kept ctx remote_id ks epoch frame session))
        ok
  dispatch-Good moment epoch MessageType.migrate_chunk frame session plain belongs ok = absurd (cc)
  dispatch-Good moment epoch MessageType.migrate_finish frame session plain belongs ok =
      same (on_migrate_finish ctx remote_id epoch frame session) session
        (ap (λ (v : Replica S × ℕ). v.0)
          (on_migrate_finish-Kept ctx remote_id ks epoch frame session))
        ok
  dispatch-Good moment epoch MessageType.replication_snapshot frame session plain belongs ok =
      absurd (cc)
  dispatch-Good moment epoch MessageType.replication_begin frame session plain belongs ok =
      same (on_begin ctx remote_id frame session) session
        (on_begin-Kept ctx remote_id ks frame session) ok
  dispatch-Good moment epoch _ frame session plain belongs ok = (ok, omega arith)

  handle-Good :
      (moment : Moment) (frame : Frame) (session : Session S)
      → is_plain frame.message_type ≡ true
      → OfHistory history (carried (decode_replication_message frame.payload))
      → IsPrefix (replica session)
      → Good (handle ctx remote_id ks moment frame session) session.applier.applied_offset
  unfolding handle
  handle-Good moment frame session plain belongs ok =
      let fresh = refresh ctx remote_id session in
      let epoch = max fresh.current_topology.epoch ctx.epoch in
      let unmoved : replica fresh ≡ replica session =
        ap (λ (v : Replica S × ℕ). v.0) (refresh-Kept ctx remote_id ks session) in
      let ok : IsPrefix (replica fresh) = subst IsPrefix (sym unmoved) ok in
      subst
        (λ (r : Replica S). Good (handle ctx remote_id ks moment frame session) r.0.applied_offset)
        unmoved
        (elim (Bool-cases (ltb frame.epoch epoch)) [
          | inl stale ↦ rw (stale, handle) (ok, omega arith)
          | inr current ↦
              elim (Bool-cases (ltb epoch frame.epoch && not (is_topology frame.message_type))) [
                | inl ahead ↦ rw (current, ahead, handle) (ok, omega arith)
                | inr due ↦
                    rw (current, due, handle)
                      (dispatch-Good moment epoch frame.message_type frame fresh plain belongs ok)
              ]
        ])

  -- A frame that brings no snapshot and no moved slot, and no entry but of the history.
  abbrev pub IsPlain : Moment × Frame → Type 0
  IsPlain (moment, frame) =
      (is_plain frame.message_type ≡ true)
      × OfHistory history (carried (decode_replication_message frame.payload))

  abbrev Ran : Option (List Frame × Session S) → ℕ → Type 0
  Ran none before = Unit
  Ran (some (sent, last)) before = IsPrefix (replica last) × (before ≤ last.applier.applied_offset)

  close-same : (session : Session S) → replica (close session) ≡ replica session
  unfolding close
  close-same session = ground arith

  closed :
      (session : Session S) (before : ℕ)
      → IsPrefix (replica session) × (before ≤ session.applier.applied_offset)
      → Ran (some ([], close session)) before
  closed session before ok =
      subst (λ r. IsPrefix r × (before ≤ r.0.applied_offset)) (sym (close-same session)) ok

  later :
      (result : Option (List Frame × Session S)) (before after : ℕ) (sent : List Frame)
      → before ≤ after
      → Ran result after
      → Ran (result >>= λ (more, last). some (sent ++ more, last)) before
  later none before after sent h ok = tt
  later (some (more, last)) before after sent h ok = (ok.0, omega (arith, ok.1))

  serve-Ran :
      (frames : List (Moment × Frame)) (session : Session S)
      → All IsPlain frames
      → IsPrefix (replica session)
      → Ran (serve ctx remote_id ks frames session) session.applier.applied_offset
  unfolding serve
  serve-Ran [] session plain ok = closed session session.applier.applied_offset (ok, omega arith)
  serve-Ran ((moment, frame) ∷ frames) session (p, plain) ok =
      let round = handle-Good moment frame session p.0 p.1 ok in
      elim (Option-cases (handle ctx remote_id ks moment frame session)) [
        | inl panicked ↦ rw (panicked) tt
        | inr (h, once) ↦
            let kept_on : Good (some h) session.applier.applied_offset =
              subst (λ r. Good r session.applier.applied_offset) once round in
            elim (Bool-cases h.0) [
              | inr over ↦ rw (once, over) (closed h.2 session.applier.applied_offset kept_on)
              | inl still ↦
                  rw (once, still)
                    (later (serve ctx remote_id ks frames h.2) _ _ h.1 kept_on.1
                      (serve-Ran frames h.2 plain kept_on.0))
            ]
      ]

  -- If every entry that reaches a replica is one of its primary's history, then whatever frames but
  -- moved slots and snapshots a peer sends, in whatever order, late, repeated or with some missing,
  -- and whichever entries the keys refuse, the keys stay what the history's mutations up to the
  -- offset that the connection has applied made of the first keys, each applied once, in order and
  -- without a failure; and that offset never falls.
  pub serve-IsPrefix :
      (frames : List (Moment × Frame)) (session last : Session S) (sent : List Frame)
      → All IsPlain frames
      → IsPrefix (replica session)
      → serve ctx remote_id ks frames session ≡ some (sent, last)
      → IsPrefix (replica last) × (session.applier.applied_offset ≤ last.applier.applied_offset)
  serve-IsPrefix frames session last sent plain ok e =
      subst (λ r. Ran r session.applier.applied_offset) e (serve-Ran frames session plain ok)
