-- ===== src/Cluster/Server/Replica/Restart.antt =====
-- A stream with another identity on a connection that was open before (src/cluster/server.rs).
use fyro_db.Prelude.{ℕ, ◌≤◌, ◌≡◌, refl, true, false, List, [], ◌∷◌, ◌++◌, to_be, le→leb}
use fyro_db.Prelude.Checked.{good}
use fyro_db.Cluster.Topology.{Text}
use fyro_db.Cluster.Transport.Codec.{MessageType, Frame}
use fyro_db.Cluster.Replication.{MutationRecord, begin_stream, entry_of, try_apply}
use fyro_db.Cluster.Replication.Wire.{decode_replication_message}
use fyro_db.Cluster.Server.{PeerContext, reply}
use fyro_db.Storage.Store.{Call}
use fyro_db.Cluster.Server.Session.{
  Keyspace, Session, is_identity, ack_frames, set_identity, on_entry, on_begin,
}

begin_other :
    {S : Type 0} (ctx : PeerContext) (remote_id : Text) (frame : Frame) (session : Session S)
    (epoch from_offset : ℕ) (identity : List ℕ)
    → decode_replication_message frame.payload ≡ good (begin_stream epoch from_offset identity)
    → is_identity identity session.identity ≡ false
    → on_begin ctx remote_id frame session ≡ (
      true,
      reply ctx MessageType.replication_ack ctx.epoch (identity ++ to_be 8 0) frame ∷ [],
      set_identity identity session,
    )
unfolding on_begin
begin_other ctx remote_id frame session epoch from_offset identity e other =
    rw (e, on_begin, other) refl

entry_old :
    {S : Type 0} (ctx : PeerContext) (remote_id : Text) (ks : Keyspace S) (call : Call)
    (frame : Frame) (session : Session S) (r : MutationRecord)
    → decode_replication_message frame.payload ≡ good (entry_of r)
    → session.source_allowed ≡ true
    → r.offset ≤ session.applier.applied_offset
    → ((on_entry ctx remote_id ks call frame session).1
        ≡ ack_frames ctx session.applier.applied_offset frame)
      × ((on_entry ctx remote_id ks call frame session).2.keys ≡ session.keys)
unfolding on_entry try_apply
entry_old ctx remote_id ks call frame session r e allowed old =
    rw (e, on_entry, allowed, le→leb _ _ old) (refl, refl)

-- After a `Begin` with another identity than the node holds, which it answers with the offset 0
-- although its connection keeps the applied offset, an entry at an offset up to that one is
-- acknowledged with the old offset, and not applied.
pub on_entry-on_begin :
    {S : Type 0} (ctx : PeerContext) (remote_id : Text) (ks : Keyspace S) (call : Call)
    (begin_frame entry_frame : Frame) (session : Session S) (epoch from_offset : ℕ)
    (identity : List ℕ) (r : MutationRecord)
    → decode_replication_message begin_frame.payload
      ≡ good (begin_stream epoch from_offset identity)
    → is_identity identity session.identity ≡ false
    → decode_replication_message entry_frame.payload ≡ good (entry_of r)
    → session.source_allowed ≡ true
    → r.offset ≤ session.applier.applied_offset
    → ((on_begin ctx remote_id begin_frame session).1
        ≡ reply ctx MessageType.replication_ack ctx.epoch (identity ++ to_be 8 0) begin_frame ∷ [])
      × ((on_entry ctx remote_id ks call entry_frame
            (on_begin ctx remote_id begin_frame session).2).1
          ≡ ack_frames ctx session.applier.applied_offset entry_frame)
      × ((on_entry ctx remote_id ks call entry_frame
            (on_begin ctx remote_id begin_frame session).2).2.keys
          ≡ session.keys)
unfolding set_identity
on_entry-on_begin ctx remote_id ks call begin_frame entry_frame session epoch from_offset identity r
      eb other ee allowed old =
    let begun = begin_other ctx remote_id begin_frame session epoch from_offset identity eb other in
    let skipped =
      entry_old ctx remote_id ks call entry_frame (set_identity identity session) r ee
        (unfold set_identity in allowed) (unfold set_identity in old) in
    rw begun (refl, skipped.0, skipped.1)
