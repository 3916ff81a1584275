-- ===== src/Cluster/Server/Session.antt =====
-- The loop over the frames of one peer, `handle_peer` of src/cluster/server.rs, with the part of
-- the store that it calls (src/storage/store/cluster.rs).
pub mod Node
use fyro_db.Prelude.{
  ℕ, bit_and, max, Bool, true, false, ◌&&◌, not, Option, none, some, List, [], ◌∷◌, ◌++◌, ltb, ◌==◌,
  if◌then◌else◌, ◌>>=◌, length, any, bytes_eq, from_be, to_be,
}
use fyro_db.Prelude.Checked.{Checked, good, bad}
use fyro_db.Cluster.Hash.{Slot, new_slot}
use fyro_db.Cluster.Topology.{Text, Topology}
use fyro_db.Cluster.Failure.{FailureReport, decode_failure_report}
use fyro_db.Cluster.State.{
  ClusterState, has_id, replace_topology, begin_slot_import, finish_slot_import, import_source,
  topology_if_newer,
}
use fyro_db.Cluster.State.Failover.{promote_replica, record_failure}
use fyro_db.Cluster.Transport.Codec.{MessageType, Frame}
use fyro_db.Cluster.Transport.TopologyCodec.{value, failure, decode_topology}
use fyro_db.Cluster.Replication.{
  MutationRecord, ApplyError, begin_stream, entry_of, ack_of, snapshot_of, ReplicaApplier,
  try_apply,
}
use fyro_db.Cluster.Replication.Wire.{
  decode_replication_message, encode_replication_message, decode_mutation_batch,
}
use fyro_db.Storage.Store.{Call}
use fyro_db.Cluster.Server.{PeerContext, is_replication_source, stable_id, reply}
unfoldable pub use Node.*

module _ {S : Type 0} (ctx : PeerContext) (remote_id : Text) where
  unfoldable pub on_failure_report : ℕ → Frame → Session S → Option (Handled S)
  unfolding promote
  on_failure_report now frame session = elim (decode_failure_report frame.payload) [
    | none ↦ some (quiet session)
    | some report ↦
        let nodes = session.current_topology.nodes in
        let known_reporter =
          bytes_eq report.reporter_id remote_id && any (has_id report.reporter_id) nodes in
        let known_target = any (has_id report.target_id) nodes in
        let (confirmed, cluster) = record_failure now report session.cluster in
        if not (known_reporter && known_target && not (bytes_eq report.target_id ctx.local_id))
        then some (quiet session)
        else if not confirmed
        then some (quiet (record session { cluster = cluster }))
        else promote report (record session { cluster = cluster })
  ]

  unfoldable pub on_topology : Frame → Session S → Option (Handled S)
  unfolding install
  on_topology frame session = elim (decode_topology frame.payload) [
    | failure reason ↦ some (quiet session)
    | value received ↦ install received session >>= λ session. some (quiet session)
  ]

  unfoldable pub on_migrate_begin : ℕ → Frame → Session S → Handled S
  unfolding named_slot reply
  on_migrate_begin current_epoch frame session = elim (named_slot frame.payload) [
    | none ↦ quiet session
    | some slot ↦
        let (begun, cluster) = begin_slot_import slot remote_id session.cluster in
        let after : Session S = record session { cluster = cluster } in
        if not begun
        then quiet after
        else (true, reply ctx MessageType.replication_ack current_epoch [] frame ∷ [], after)
  ]

  unfoldable pub on_migrate_chunk : Keyspace S → Calls → ℕ → Frame → Session S → Handled S
  unfolding apply_chunk reply
  on_migrate_chunk ks calls current_epoch frame session =
      elim (decode_mutation_batch frame.payload) [
        | bad reason ↦ quiet session
        | good records ↦
            let (applied, keys) =
              apply_chunk ks calls session.cluster frame.source_id records session.keys in
            let after : Session S = record session { keys = keys } in
            if applied
            then (true, reply ctx MessageType.replication_ack current_epoch [] frame ∷ [], after)
            else quiet after
      ]

  unfoldable pub on_migrate_finish : ℕ → Frame → Session S → Handled S
  unfolding reply
  on_migrate_finish current_epoch frame session =
      let acked = reply ctx MessageType.replication_ack current_epoch [] frame ∷ [] in
      if not (length frame.payload == 2)
      then quiet session
      else elim (new_slot (from_be frame.payload)) [
        | none ↦ (true, acked, session)
        | some slot ↦
            (true, acked, record session { cluster = finish_slot_import slot session.cluster })
      ]

  unfoldable pub on_entry : Keyspace S → Call → Frame → Session S → Handled S
  unfolding try_apply ack_frames decode_replication_message
  on_entry ks call frame session = elim (decode_replication_message frame.payload) [
    | bad reason ↦ quiet session
    | good (entry_of r) ↦
        if not session.source_allowed
        then quiet session
        else elim (try_apply (ks.apply call) r (session.applier, session.keys)) [
          | bad reason ↦ quiet session
          | good (changed, (applier, keys)) ↦ (
            true,
            ack_frames ctx applier.applied_offset frame,
            record session {
              keys = keys;
              applier = applier;
              stored_offset = applier.applied_offset;
            },
          )
        ]
    | good _ ↦ quiet session
  ]

  unfoldable pub on_begin : Frame → Session S → Handled S
  unfolding set_identity reply decode_replication_message
  on_begin frame session = elim (decode_replication_message frame.payload) [
    | bad reason ↦ quiet session
    | good (begin_stream epoch from_offset identity) ↦
        let accepted = is_identity identity session.identity in
        let after = set_identity identity session in
        let offset = if accepted then after.stored_offset else 0 in
        (
          true,
          reply ctx MessageType.replication_ack ctx.epoch (identity ++ to_be 8 offset) frame ∷ [],
          after,
        )
    | good _ ↦ quiet session
  ]

  -- A part of a snapshot, after the checks of who sent it.
  unfoldable pub write_part : Keyspace S → Moment → ℕ → List ℕ → Frame → Session S → Handled S
  unfolding ack_frames
  write_part ks moment offset payload frame session =
      let opened : Session S = if bit_and frame.flags 1 == 0 then session else record session {
        snapshot_file = if moment.opens then some [] else none;
        installing = true;
      } in
      elim opened.snapshot_file [
        | none ↦ quiet opened
        | some bytes ↦
            let file = bytes ++ payload in
            let (loaded, keys) = ks.load_strict moment.calls file (ks.flush opened.keys) in
            if not moment.writes
            then quiet (record opened { snapshot_file = none; installing = false })
            else if bit_and frame.flags 2 == 0
            then (
              true,
              ack_frames ctx opened.applier.applied_offset frame,
              record opened { snapshot_file = some file },
            )
            else if not loaded
            then quiet (record opened { snapshot_file = none; keys = keys })
            else (
              true,
              ack_frames ctx offset frame,
              record opened {
                snapshot_file = none;
                keys = keys;
                applier = record { applied_offset = offset };
                stored_offset = offset;
                installing = false;
              },
            )
      ]

  unfoldable pub on_snapshot : Keyspace S → Moment → Frame → Session S → Handled S
  unfolding write_part decode_replication_message
  on_snapshot ks moment frame session =
      if not session.source_allowed
      then quiet session
      else elim (decode_replication_message frame.payload) [
        | bad reason ↦ quiet session
        | good (snapshot_of epoch offset payload) ↦
            if epoch == ctx.epoch
            then write_part ks moment offset payload frame session
            else quiet session
        | good _ ↦ quiet session
      ]

  -- The `match` on the type of a frame.
  unfoldable pub dispatch :
      Keyspace S → Moment → ℕ → MessageType → Frame → Session S → Option (Handled S)
  unfolding on_failure_report on_topology on_migrate_begin on_migrate_chunk on_migrate_finish
      on_entry on_begin on_snapshot reply
  dispatch ks moment current_epoch MessageType.ping frame session =
      some (true, reply ctx MessageType.pong ctx.epoch [] frame ∷ [], session)
  dispatch ks moment current_epoch MessageType.hello frame session = some (quiet session)
  dispatch ks moment current_epoch MessageType.failure_report frame session =
      on_failure_report moment.now frame session
  dispatch ks moment current_epoch MessageType.topology frame session = on_topology frame session
  dispatch ks moment current_epoch MessageType.replication_entry frame session =
      some (on_entry ks (moment.calls 0) frame session)
  dispatch ks moment current_epoch MessageType.migrate_begin frame session =
      some (on_migrate_begin current_epoch frame session)
  dispatch ks moment current_epoch MessageType.migrate_chunk frame session =
      some (on_migrate_chunk ks moment.calls current_epoch frame session)
  dispatch ks moment current_epoch MessageType.migrate_finish frame session =
      some (on_migrate_finish current_epoch frame session)
  dispatch ks moment current_epoch MessageType.replication_snapshot frame session =
      some (on_snapshot ks moment frame session)
  dispatch ks moment current_epoch MessageType.replication_begin frame session =
      some (on_begin frame session)
  dispatch ks moment current_epoch MessageType.replication_ack frame session = some (quiet session)
  dispatch ks moment current_epoch MessageType.replication_finish frame session =
      some (quiet session)
  dispatch ks moment current_epoch _ frame session = some (false, [], session)

  -- One round of the loop; `none` is a panic.
  unfoldable pub handle : Keyspace S → Moment → Frame → Session S → Option (Handled S)
  unfolding refresh dispatch
  handle ks moment frame session =
      let session = refresh ctx remote_id session in
      let current_epoch = max session.current_topology.epoch ctx.epoch in
      if ltb frame.epoch current_epoch
      then some (quiet session)
      else if ltb current_epoch frame.epoch && not (is_topology frame.message_type)
      then some (false, [], session)
      else dispatch ks moment current_epoch frame.message_type frame session

  -- The loop over the frames that arrive until the peer is gone, and what is done behind it.
  unfoldable pub serve :
      Keyspace S → List (Moment × Frame) → Session S → Option (List Frame × Session S)
  unfolding handle close
  serve ks [] session = some ([], close session)
  serve ks ((moment, frame) ∷ frames) session =
      handle ks moment frame session >>= λ (open_still, sent, after).
      let rest = serve ks frames after >>= λ (more, last). some (sent ++ more, last) in
      if open_still then rest else some (sent, close after)
