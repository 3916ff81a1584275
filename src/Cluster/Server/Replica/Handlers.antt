-- ===== src/Cluster/Server/Replica/Handlers.antt =====
-- A node's keys and applied offsets behind the handlers of src/cluster/server.rs.
use fyro_db.Prelude.{
  ℕ, ◌≡◌, refl, ap, inl, inr, false, ◌&&◌, not, Option, none, some, List, [], ◌∷◌, arith, bytes_eq,
  any, ◌>>=◌, Bool-cases, Option-cases,
}
use fyro_db.Prelude.Checked.{Checked, good, bad}
use fyro_db.Cluster.Topology.{Text, Topology}
use fyro_db.Cluster.Failure.{FailureReport, decode_failure_report}
use fyro_db.Cluster.State.{ClusterState, has_id, replace_topology, import_source}
use fyro_db.Cluster.State.Failover.{promote_replica, record_failure}
use fyro_db.Cluster.Transport.TopologyCodec.{Outcome, value, failure, decode_topology}
use fyro_db.Cluster.Transport.Codec.{Frame}
use fyro_db.Cluster.Replication.{MutationRecord}
use fyro_db.Cluster.Replication.Wire.{ReplicationCodecError, decode_mutation_batch}
use fyro_db.Cluster.Replication.Delivery.{Replica}
use fyro_db.Storage.Store.{Call}
use fyro_db.Cluster.Server.{PeerContext}
use fyro_db.Cluster.Server.Session.{
  Keyspace, Session, Moment, Calls, Handled, quiet, refresh, install, promote, set_identity,
  is_source, apply_chunk, on_failure_report, on_topology, on_migrate_begin, on_migrate_chunk,
  on_migrate_finish, on_entry, on_begin, on_snapshot,
}

abbrev pub replica : {S : Type 0} → Session S → Replica S
replica session = (session.applier, session.keys)

-- The keys and both applied offsets, the connection's and the store's.
abbrev pub view : {S : Type 0} → Session S → Replica S × ℕ
view session = (replica session, session.stored_offset)

module _ {S : Type 0} (ctx : PeerContext) (remote_id : Text) (ks : Keyspace S) where
  -- A result of which the keys and the offsets are the same.
  abbrev pub Kept : Replica S × ℕ → Option (Handled S) → Type 0
  Kept before none = Unit
  Kept before (some h) = view h.2 ≡ before

  install-Kept :
      (topology : Topology) (session : Session S)
      → Kept (view session) (install topology session >>= λ session. some (quiet session))
  unfolding install
  install-Kept topology session = elim (Option-cases (replace_topology topology session.cluster)) [
    | inl e ↦ rw e tt
    | inr (after, e) ↦ rw e refl
  ]

  promote-Kept : (r : FailureReport) (session : Session S) → Kept (view session) (promote r session)
  unfolding promote
  promote-Kept r session =
      elim (Option-cases (promote_replica r.target_id r.epoch session.cluster)) [
        | inl e ↦ rw e tt
        | inr ((answer, cluster), e) ↦ rw e (announced answer cluster)
      ]
    where
      announced :
          (answer : Option Topology) (cluster : ClusterState)
          → Kept (view session) (elim answer [
            | none ↦ some (quiet (record session { cluster = cluster }))
            | some topology ↦ install topology (record session { cluster = cluster }) >>= λ session.
                some (quiet session)
          ])
      announced none cluster = refl
      announced (some topology) cluster =
          install-Kept topology (record session { cluster = cluster })

  pub on_failure_report-Kept :
      (now : ℕ) (frame : Frame) (session : Session S)
      → Kept (view session) (on_failure_report ctx remote_id now frame session)
  unfolding on_failure_report
  on_failure_report-Kept now frame session =
      elim (Option-cases (decode_failure_report frame.payload)) [
        | inl e ↦ rw (e, on_failure_report) refl
        | inr (r, e) ↦
            elim (Bool-cases (
              not (
                bytes_eq r.reporter_id remote_id
                && any (has_id r.reporter_id) session.current_topology.nodes
                && any (has_id r.target_id) session.current_topology.nodes
                && not (bytes_eq r.target_id ctx.local_id)))) [
                  | inl stranger ↦ rw (e, on_failure_report, stranger) refl
                  | inr known ↦ elim (Bool-cases (record_failure now r session.cluster).0) [
                    | inr alone ↦ rw (e, on_failure_report, known, alone) refl
                    | inl confirmed ↦
                        rw (e, on_failure_report, known, confirmed)
                          (promote-Kept r
                            (record session { cluster = (record_failure now r session.cluster).1 }))
                  ]
                ]
      ]

  pub on_topology-Kept :
      (frame : Frame) (session : Session S)
      → Kept (view session) (on_topology ctx remote_id frame session)
  unfolding on_topology
  on_topology-Kept frame session = received (decode_topology frame.payload) refl
    where
      received :
          (result : Outcome Topology)
          → decode_topology frame.payload ≡ result
          → Kept (view session) (on_topology ctx remote_id frame session)
      received (failure reason) e = rw (e, on_topology) refl
      received (value topology) e = rw (e, on_topology) (install-Kept topology session)

  pub on_migrate_begin-Kept :
      (epoch : ℕ) (frame : Frame) (session : Session S)
      → view (on_migrate_begin ctx remote_id epoch frame session).2 ≡ view session
  unfolding on_migrate_begin
  on_migrate_begin-Kept epoch frame session = ground arith

  pub on_migrate_finish-Kept :
      (epoch : ℕ) (frame : Frame) (session : Session S)
      → view (on_migrate_finish ctx remote_id epoch frame session).2 ≡ view session
  unfolding on_migrate_finish
  on_migrate_finish-Kept epoch frame session = ground arith

  pub on_begin-Kept :
      (frame : Frame) (session : Session S)
      → replica (on_begin ctx remote_id frame session).2 ≡ replica session
  unfolding on_begin set_identity
  on_begin-Kept frame session = ground arith

  pub on_entry-stranger :
      (call : Call) (frame : Frame) (session : Session S)
      → session.source_allowed ≡ false
      → view (on_entry ctx remote_id ks call frame session).2 ≡ view session
  unfolding on_entry
  on_entry-stranger call frame session e = ground arith

  pub on_snapshot-stranger :
      (moment : Moment) (frame : Frame) (session : Session S)
      → session.source_allowed ≡ false
      → view (on_snapshot ctx remote_id ks moment frame session).2 ≡ view session
  unfolding on_snapshot
  on_snapshot-stranger moment frame session e = ground arith

  -- Without an import no record of a chunk is applied.
  apply_chunk-idle :
      (calls : Calls) (cluster : ClusterState) (source_id : ℕ) (records : List MutationRecord)
      (keys : S)
      → cluster.has_imports ≡ false
      → (apply_chunk ks calls cluster source_id records keys).1 ≡ keys
  unfolding apply_chunk
  apply_chunk-idle calls cluster source_id [] keys idle = refl
  apply_chunk-idle calls cluster source_id (r ∷ records) keys idle =
      let unknown : is_source source_id (import_source r.slot cluster) ≡ false =
        unfold import_source in unfold is_source in rw idle refl in
      rw unknown refl

  pub on_migrate_chunk-idle :
      (calls : Calls) (epoch : ℕ) (frame : Frame) (session : Session S)
      → session.cluster.has_imports ≡ false
      → view (on_migrate_chunk ctx remote_id ks calls epoch frame session).2 ≡ view session
  unfolding on_migrate_chunk
  on_migrate_chunk-idle calls epoch frame session idle =
      received (decode_mutation_batch frame.payload) refl
    where
      received :
          (result : Checked ReplicationCodecError (List MutationRecord))
          → decode_mutation_batch frame.payload ≡ result
          → view (on_migrate_chunk ctx remote_id ks calls epoch frame session).2 ≡ view session
      received (bad reason) e = rw (e, on_migrate_chunk) refl
      received (good records) e =
          let kept =
            apply_chunk-idle calls session.cluster frame.source_id records session.keys idle in
          elim (Bool-cases
            (apply_chunk ks calls session.cluster frame.source_id records session.keys).0) [
              | inl done ↦
                  rw (e, on_migrate_chunk, done)
                    (ap (λ k. ((session.applier, k), session.stored_offset)) kept)
              | inr stopped ↦
                  rw (e, on_migrate_chunk, stopped)
                    (ap (λ k. ((session.applier, k), session.stored_offset)) kept)
            ]

  pub refresh-Kept : (session : Session S) → view (refresh ctx remote_id session) ≡ view session
  unfolding refresh
  refresh-Kept session = ground arith
