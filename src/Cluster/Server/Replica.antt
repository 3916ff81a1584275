-- ===== src/Cluster/Server/Replica.antt =====
-- Who may change a replica's keys.
pub mod Handlers
pub mod History
pub mod Restart
use mathlib.Core.Path.{subst}
use fyro_db.Prelude.{
  ℕ, ◌+◌, ◌<◌, ◌≤◌, ◌≡◌, refl, ap, sym, ◌∙◌, ◌⊎◌, inl, inr, max, Bool, true, false, ◌&&◌, not,
  Option, none, some, List, [], ◌∷◌, ◌++◌, arith, ltb, leb, ◌==◌, bytes_eq, any, if◌then◌else◌,
  ◌>>=◌, Bool-cases, Option-cases, All, to_be,
}
use fyro_db.Prelude.Checked.{Checked, good, bad}
use fyro_db.Cluster.Topology.{Text, Topology}
use fyro_db.Cluster.Failure.{FailureReport, decode_failure_report}
use fyro_db.Cluster.State.{ClusterState, has_id, replace_topology, import_source}
use fyro_db.Cluster.State.Failover.{promote_replica, record_failure}
use fyro_db.Cluster.Transport.TopologyCodec.{Outcome, value, failure, decode_topology}
use fyro_db.Cluster.Transport.Codec.{MessageType, Frame}
use fyro_db.Cluster.Replication.{
  MutationRecord, ApplyError, ReplicationMessage, begin_stream, entry_of, ack_of, snapshot_of,
  finish_stream, ReplicaApplier, try_apply, apply_record,
}
use fyro_db.Cluster.Replication.Wire.{
  ReplicationCodecError, decode_replication_message, decode_mutation_batch,
}
use fyro_db.Cluster.Replication.Delivery.{
  Replica, deliver, replayed, Belongs, IsPrefix, deliver-IsPrefix,
}
use fyro_db.Storage.Store.{Call}
use fyro_db.Cluster.Server.{PeerContext, reply}
use fyro_db.Cluster.Server.Session.{
  Keyspace, Session, Moment, Calls, Handled, quiet, is_identity, ack_frames, refresh, install,
  promote, set_identity, is_source, apply_chunk, on_failure_report, on_topology, on_migrate_begin,
  on_migrate_chunk, on_migrate_finish, on_entry, on_begin, write_part, on_snapshot, is_topology,
  dispatch, handle, serve,
}
use fyro_db.Cluster.Server.Replica.Handlers.{
  replica, view, Kept, on_failure_report-Kept, on_topology-Kept, on_migrate_begin-Kept,
  on_migrate_finish-Kept, on_begin-Kept, on_entry-stranger, on_snapshot-stranger,
  on_migrate_chunk-idle, refresh-Kept,
}

-- Whether the payload begins a stream with another identity than the node's.
abbrev pub begins_other : List ℕ → Option (List ℕ) → Bool
begins_other payload held = elim (decode_replication_message payload) [
  | bad reason ↦ false
  | good (begin_stream epoch from_offset identity) ↦ not (is_identity identity held)
  | good _ ↦ false
]

module _ {S : Type 0} (ctx : PeerContext) (remote_id : Text) (ks : Keyspace S) where
  -- The store's offset is the same, or 0 after the begin of another stream.
  abbrev pub Offset : MessageType → Frame → Session S → ℕ → Type 0
  Offset message_type frame session after =
      (after ≡ session.stored_offset)
      ⊎ ((message_type ≡ MessageType.replication_begin)
          × (begins_other frame.payload session.identity ≡ true)
          × (after ≡ 0))

  -- A result of which the keys and the connection's offset are the same.
  abbrev AllBut : MessageType → Frame → Session S → Option (Handled S) → Type 0
  AllBut message_type frame session none = Unit
  AllBut message_type frame session (some h) =
      (replica h.2 ≡ replica session) × Offset message_type frame session h.2.stored_offset

  -- A result with the same keys and offsets.
  unmoved :
      (message_type : MessageType) (frame : Frame) (session : Session S)
      (result : Option (Handled S))
      → Kept ctx remote_id ks (view session) result
      → AllBut message_type frame session result
  unmoved message_type frame session none kept = tt
  unmoved message_type frame session (some h) kept =
      (ap (λ (v : Replica S × ℕ). v.0) kept, inl (ap (λ (v : Replica S × ℕ). v.1) kept))

  on_begin-Offset :
      (frame : Frame) (session : Session S)
      → Offset MessageType.replication_begin frame session
          (on_begin ctx remote_id frame session).2.stored_offset
  unfolding on_begin set_identity
  on_begin-Offset frame session = received (decode_replication_message frame.payload) refl
    where
      received :
          (result : Checked ReplicationCodecError ReplicationMessage)
          → decode_replication_message frame.payload ≡ result
          → Offset MessageType.replication_begin frame session
              (on_begin ctx remote_id frame session).2.stored_offset
      received (bad reason) e = inl (rw (e, on_begin) refl)
      received (good (entry_of r)) e = inl (rw (e, on_begin) refl)
      received (good (ack_of applied_offset)) e = inl (rw (e, on_begin) refl)
      received (good (snapshot_of epoch offset payload)) e = inl (rw (e, on_begin) refl)
      received (good (finish_stream offset)) e = inl (rw (e, on_begin) refl)
      received (good (begin_stream epoch from_offset identity)) e =
          elim (Bool-cases (is_identity identity session.identity)) [
            | inl known ↦ inl (rw (e, on_begin, known) refl)
            | inr other ↦ inr (refl, rw (e, begins_other, other) refl, rw (e, on_begin, other) refl)
          ]

  dispatch-stranger :
      (moment : Moment) (epoch : ℕ) (message_type : MessageType) (frame : Frame)
      (session : Session S)
      → session.source_allowed ≡ false
      → session.cluster.has_imports ≡ false
      → AllBut message_type frame session
          (dispatch ctx remote_id ks moment epoch message_type frame session)
  unfolding dispatch
  dispatch-stranger moment epoch MessageType.failure_report frame session e idle =
      unmoved _ frame session _ (on_failure_report-Kept ctx remote_id ks moment.now frame session)
  dispatch-stranger moment epoch MessageType.topology frame session e idle =
      unmoved _ frame session _ (on_topology-Kept ctx remote_id ks frame session)
  dispatch-stranger moment epoch MessageType.replication_entry frame session e idle =
      unmoved _ frame session (some (on_entry ctx remote_id ks (moment.calls 0) frame session))
        (on_entry-stranger ctx remote_id ks (moment.calls 0) frame session e)
  dispatch-stranger moment epoch MessageType.migrate_begin frame session e idle =
      unmoved _ frame session (some (on_migrate_begin ctx remote_id epoch frame session))
        (on_migrate_begin-Kept ctx remote_id ks epoch frame session)
  dispatch-stranger moment epoch MessageType.migrate_chunk frame session e idle =
      unmoved _ frame session
        (some (on_migrate_chunk ctx remote_id ks moment.calls epoch frame session))
        (on_migrate_chunk-idle ctx remote_id ks moment.calls epoch frame session idle)
  dispatch-stranger moment epoch MessageType.migrate_finish frame session e idle =
      unmoved _ frame session (some (on_migrate_finish ctx remote_id epoch frame session))
        (on_migrate_finish-Kept ctx remote_id ks epoch frame session)
  dispatch-stranger moment epoch MessageType.replication_snapshot frame session e idle =
      unmoved _ frame session (some (on_snapshot ctx remote_id ks moment frame session))
        (on_snapshot-stranger ctx remote_id ks moment frame session e)
  dispatch-stranger moment epoch MessageType.replication_begin frame session e idle =
      (on_begin-Kept ctx remote_id ks frame session, on_begin-Offset frame session)
  dispatch-stranger moment epoch _ frame session e idle = (refl, inl refl)

  refresh-same :
      (session : Session S)
      → ((refresh ctx remote_id session).cluster ≡ session.cluster)
        × ((refresh ctx remote_id session).identity ≡ session.identity)
  unfolding refresh
  refresh-same session = (ground arith, ground arith)

  -- What a result leaves, seen from before the round.
  from_start :
      (message_type : MessageType) (frame : Frame) (session : Session S)
      (result : Option (Handled S))
      → AllBut message_type frame (refresh ctx remote_id session) result
      → AllBut message_type frame session result
  from_start message_type frame session none kept = tt
  from_start message_type frame session (some h) (same, offset) = (
    same ∙ ap (λ (v : Replica S × ℕ). v.0) (refresh-Kept ctx remote_id ks session),
    elim offset [
      | inl e ↦ inl (e ∙ ap (λ (v : Replica S × ℕ). v.1) (refresh-Kept ctx remote_id ks session))
      | inr (begins, other, e) ↦
          inr (begins, ap (begins_other frame.payload) (sym (refresh-same session).1) ∙ other, e)
    ],
  )

  handle-stranger :
      (moment : Moment) (frame : Frame) (session : Session S)
      → (refresh ctx remote_id session).source_allowed ≡ false
      → session.cluster.has_imports ≡ false
      → AllBut frame.message_type frame session (handle ctx remote_id ks moment frame session)
  unfolding handle
  handle-stranger moment frame session e idle =
      let fresh = refresh ctx remote_id session in
      let epoch = max fresh.current_topology.epoch ctx.epoch in
      from_start frame.message_type frame session (handle ctx remote_id ks moment frame session)
        (elim (Bool-cases (ltb frame.epoch epoch)) [
          | inl stale ↦ rw (stale, handle) (refl, inl refl)
          | inr current ↦
              elim (Bool-cases (ltb epoch frame.epoch && not (is_topology frame.message_type))) [
                | inl ahead ↦ rw (current, ahead, handle) (refl, inl refl)
                | inr due ↦
                    rw (current, due, handle)
                      (dispatch-stranger moment epoch frame.message_type frame fresh e
                        (ap (λ (c : ClusterState). c.has_imports) (refresh-same session).0 ∙ idle))
              ]
        ])

  -- While the topology does not name the peer as the node's primary and no slot is being imported,
  -- no frame of the peer, of whatever type and content, changes the node's keys or the offset that
  -- the connection has applied; and the offset in the store stays too, unless the frame begins a
  -- stream with another identity than the node's: then it is 0, whoever the peer is.
  pub handle-keeps :
      (moment : Moment) (frame : Frame) (session : Session S) (handled : Handled S)
      → (refresh ctx remote_id session).source_allowed ≡ false
      → session.cluster.has_imports ≡ false
      → handle ctx remote_id ks moment frame session ≡ some handled
      → (handled.2.keys ≡ session.keys)
        × (handled.2.applier ≡ session.applier)
        × Offset frame.message_type frame session handled.2.stored_offset
  handle-keeps moment frame session handled e idle h =
      let kept =
        subst (AllBut frame.message_type frame session) h
          (handle-stranger moment frame session e idle) in
      (ap (λ (r : Replica S). r.1) kept.0, ap (λ (r : Replica S). r.0) kept.0, kept.1)
