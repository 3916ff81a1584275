-- ===== src/Cluster/Server/Safety.antt =====
-- The server of the peers never panics, and keeps the cluster state safe.
use fyro_db.Prelude.{
  ℕ, ◌≡◌, refl, sym, inl, inr, max, ◌&&◌, not, Option, none, some, List, [], ◌∷◌, ◌++◌, arith, ltb,
  Bool-cases, Option-cases, any, bytes_eq, All, length, from_be, ◌==◌,
}
use mathlib.Core.Path.{subst}
use fyro_db.Cluster.Hash.{new_slot}
use fyro_db.Cluster.Topology.{Text, Topology}
use fyro_db.Cluster.Topology.Ownership.{HasRanges}
use fyro_db.Cluster.Failure.{FailureReport, decode_failure_report}
use fyro_db.Cluster.State.{ClusterState, begin_slot_import, has_id}
use fyro_db.Cluster.State.Failover.{promote_replica, record_failure}
use fyro_db.Cluster.State.Safety.{
  IsSafe, replace_topology-Runs, begin_slot_import-IsSafe, finish_slot_import-IsSafe,
}
use fyro_db.Cluster.State.Safety.Members.{promote_replica-Runs}
use fyro_db.Cluster.State.Safety.Published.{promoted_current}
use fyro_db.Cluster.Transport.Codec.{MessageType, Frame}
use fyro_db.Cluster.Transport.TopologyCodec.{Outcome, value, failure, decode_topology}
use fyro_db.Cluster.Transport.TopologyCodec.Bounds.{decode_topology-HasRanges}
use fyro_db.Cluster.Server.{PeerContext}
use fyro_db.Storage.Store.{Call}
use fyro_db.Cluster.Server.Session.{
  Keyspace, Session, Moment, Calls, close, Handled, quiet, promote, refresh, install,
  on_failure_report, on_topology, on_migrate_begin, on_migrate_chunk, on_migrate_finish, on_entry,
  on_begin, write_part, on_snapshot, dispatch, handle, serve, named_slot, set_identity, is_topology,
}

module _ {S : Type 0} where
  -- A round that does not panic, and leaves a safe cluster state.
  pub record Served (result : Option (Handled S)) : Type 0 where
    pub handled : Handled S
    pub returns : result ≡ some handled
    pub safe : IsSafe handled.2.cluster

  served : (h : Handled S) → IsSafe h.2.cluster → Served (some h)
  served h safe = record { handled = h; returns = refl; safe = safe }

  -- What the loop leaves, if it does not panic.
  pub record Serves (result : Option (List Frame × Session S)) : Type 0 where
    pub sent : List Frame
    pub last : Session S
    pub returns : result ≡ some (sent, last)
    pub safe : IsSafe last.cluster

  install_lem :
      (topology : Topology) (session : Session S)
      → All HasRanges topology.nodes
      → IsSafe session.cluster
      → (after : Session S) × (install topology session ≡ some after) × IsSafe after.cluster
  unfolding install
  install_lem topology session ranged safe =
      let r = replace_topology-Runs topology session.cluster ranged safe in
      (record session { cluster = r.after }, rw r.returns refl, r.safe)

  promote-Served :
      (r : FailureReport) (session : Session S)
      → IsSafe session.cluster
      → Served (promote r session)
  unfolding promote
  promote-Served r session safe =
      let run = promote_replica-Runs r.target_id r.epoch session.cluster safe in
      announced run.answer run.after run.returns run.safe
    where
      announced :
          (answer : Option Topology) (cluster : ClusterState)
          → promote_replica r.target_id r.epoch session.cluster ≡ some (answer, cluster)
          → IsSafe cluster
          → Served (promote r session)
      announced none cluster e ok = rw (e, promote) (served _ ok)
      announced (some topology) cluster e ok =
          let current = promoted_current r.target_id r.epoch session.cluster cluster topology e in
          let (after, installed, safe) =
            install_lem topology (record session { cluster = cluster }) (rw current ok.ranged) ok in
          rw (e, promote, installed) (served (quiet after) safe)

  module _ (ctx : PeerContext) (remote_id : Text) where
    on_topology-Served :
        (frame : Frame) (session : Session S)
        → IsSafe session.cluster
        → Served (on_topology ctx remote_id frame session)
    unfolding on_topology
    on_topology-Served frame session safe = received (decode_topology frame.payload) refl
      where
        received :
            (result : Outcome Topology)
            → decode_topology frame.payload ≡ result
            → Served (on_topology ctx remote_id frame session)
        received (failure reason) e = rw (e, on_topology) (served (quiet session) safe)
        received (value topology) e =
            let (after, installed, ok) =
              install_lem topology session (decode_topology-HasRanges frame.payload topology e)
                safe in
            rw (e, on_topology, installed) (served (quiet after) ok)

    on_failure_report-Served :
        (now : ℕ) (frame : Frame) (session : Session S)
        → IsSafe session.cluster
        → Served (on_failure_report ctx remote_id now frame session)
    unfolding on_failure_report
    on_failure_report-Served now frame session safe =
        reported (decode_failure_report frame.payload) refl
      where
        noted : (r : FailureReport) → IsSafe (record_failure now r session.cluster).1
        noted r =
            unfold record_failure in
            record {
              ranged = safe.ranged;
              routed = safe.routed;
              migrating = safe.migrating;
              importing = safe.importing;
            }

        reported :
            (result : Option FailureReport)
            → decode_failure_report frame.payload ≡ result
            → Served (on_failure_report ctx remote_id now frame session)
        reported none e = rw (e, on_failure_report) (served (quiet session) safe)
        reported (some r) e =
            elim (Bool-cases (
              not (
                bytes_eq r.reporter_id remote_id
                && any (has_id r.reporter_id) session.current_topology.nodes
                && any (has_id r.target_id) session.current_topology.nodes
                && not (bytes_eq r.target_id ctx.local_id)))) [
                  | inl stranger ↦ rw (e, on_failure_report, stranger) (served (quiet session) safe)
                  | inr known ↦ elim (Bool-cases (record_failure now r session.cluster).0) [
                    | inr alone ↦ rw (e, on_failure_report, known, alone) (served _ (noted r))
                    | inl confirmed ↦
                        rw (e, on_failure_report, known, confirmed)
                          (promote-Served r
                            (record session { cluster = (record_failure now r session.cluster).1 })
                            (noted r))
                  ]
                ]

    on_migrate_begin-IsSafe :
        (epoch : ℕ) (frame : Frame) (session : Session S)
        → IsSafe session.cluster
        → IsSafe (on_migrate_begin ctx remote_id epoch frame session).2.cluster
    unfolding on_migrate_begin
    on_migrate_begin-IsSafe epoch frame session safe =
        elim (Option-cases (named_slot frame.payload)) [
          | inl e ↦ rw (e, on_migrate_begin) safe
          | inr (slot, e) ↦
              let begun = begin_slot_import-IsSafe slot remote_id session.cluster safe in
              elim (Bool-cases (begin_slot_import slot remote_id session.cluster).0) [
                | inl ok ↦ rw (e, on_migrate_begin, ok) begun
                | inr refused ↦ rw (e, on_migrate_begin, refused) begun
              ]
        ]

    on_migrate_finish-IsSafe :
        (epoch : ℕ) (frame : Frame) (session : Session S)
        → IsSafe session.cluster
        → IsSafe (on_migrate_finish ctx remote_id epoch frame session).2.cluster
    unfolding on_migrate_finish
    on_migrate_finish-IsSafe epoch frame session safe =
        elim (Bool-cases (length frame.payload == 2)) [
          | inr e ↦ rw (e, on_migrate_finish) safe
          | inl two ↦ elim (Option-cases (new_slot (from_be frame.payload))) [
            | inl e ↦ rw (two, e, on_migrate_finish) safe
            | inr (slot, e) ↦
                rw (two, e, on_migrate_finish) (finish_slot_import-IsSafe slot session.cluster safe)
          ]
        ]

    -- The handlers that leave the cluster state alone.
    on_migrate_chunk-same :
        (ks : Keyspace S) (calls : Calls) (epoch : ℕ) (frame : Frame) (session : Session S)
        → (on_migrate_chunk ctx remote_id ks calls epoch frame session).2.cluster ≡ session.cluster
    unfolding on_migrate_chunk
    on_migrate_chunk-same ks calls epoch frame session = ground arith

    on_entry-same :
        (ks : Keyspace S) (call : Call) (frame : Frame) (session : Session S)
        → (on_entry ctx remote_id ks call frame session).2.cluster ≡ session.cluster
    unfolding on_entry
    on_entry-same ks call frame session = ground arith

    on_begin-same :
        (frame : Frame) (session : Session S)
        → (on_begin ctx remote_id frame session).2.cluster ≡ session.cluster
    unfolding on_begin set_identity
    on_begin-same frame session = ground arith

    on_snapshot-same :
        (ks : Keyspace S) (moment : Moment) (frame : Frame) (session : Session S)
        → (on_snapshot ctx remote_id ks moment frame session).2.cluster ≡ session.cluster
    unfolding on_snapshot write_part
    on_snapshot-same ks moment frame session = ground arith

    -- A handler that leaves the cluster state alone.
    same :
        (h : Handled S) (session : Session S)
        → h.2.cluster ≡ session.cluster
        → IsSafe session.cluster
        → Served (some h)
    same h session e safe = served h (subst IsSafe (sym e) safe)

    dispatch-Served :
        (ks : Keyspace S) (moment : Moment) (epoch : ℕ) (message_type : MessageType) (frame : Frame)
        (session : Session S)
        → IsSafe session.cluster
        → Served (dispatch ctx remote_id ks moment epoch message_type frame session)
    unfolding dispatch
    dispatch-Served ks moment epoch MessageType.failure_report frame session safe =
        on_failure_report-Served moment.now frame session safe
    dispatch-Served ks moment epoch MessageType.topology frame session safe =
        on_topology-Served frame session safe
    dispatch-Served ks moment epoch MessageType.replication_entry frame session safe =
        same _ session (on_entry-same ks (moment.calls 0) frame session) safe
    dispatch-Served ks moment epoch MessageType.migrate_begin frame session safe =
        served _ (on_migrate_begin-IsSafe epoch frame session safe)
    dispatch-Served ks moment epoch MessageType.migrate_chunk frame session safe =
        same _ session (on_migrate_chunk-same ks moment.calls epoch frame session) safe
    dispatch-Served ks moment epoch MessageType.migrate_finish frame session safe =
        served _ (on_migrate_finish-IsSafe epoch frame session safe)
    dispatch-Served ks moment epoch MessageType.replication_snapshot frame session safe =
        same _ session (on_snapshot-same ks moment frame session) safe
    dispatch-Served ks moment epoch MessageType.replication_begin frame session safe =
        same _ session (on_begin-same frame session) safe
    dispatch-Served ks moment epoch _ frame session safe = served _ safe

    refresh-same : (session : Session S) → (refresh ctx remote_id session).cluster ≡ session.cluster
    unfolding refresh
    refresh-same session = ground arith

    close-same : (session : Session S) → (close session).cluster ≡ session.cluster
    unfolding close
    close-same session = ground arith

    handle-Served :
        (ks : Keyspace S) (moment : Moment) (frame : Frame) (session : Session S)
        → IsSafe session.cluster
        → Served (handle ctx remote_id ks moment frame session)
    unfolding handle
    handle-Served ks moment frame session safe =
        let fresh = refresh ctx remote_id session in
        let epoch = max fresh.current_topology.epoch ctx.epoch in
        let ok : IsSafe fresh.cluster = subst IsSafe (sym (refresh-same session)) safe in
        elim (Bool-cases (ltb frame.epoch epoch)) [
          | inl stale ↦ rw stale (served (quiet fresh) ok)
          | inr current ↦
              elim (Bool-cases (ltb epoch frame.epoch && not (is_topology frame.message_type))) [
                | inl ahead ↦ rw (current, ahead) (served _ ok)
                | inr due ↦
                    rw (current, due)
                      (dispatch-Served ks moment epoch frame.message_type frame fresh ok)
              ]
        ]

    -- From a safe cluster state, whatever frames a peer sends, at whatever times and whatever the
    -- disk answers, the loop over them never panics, and it leaves a safe cluster state.
    pub serve-Serves :
        (ks : Keyspace S) (frames : List (Moment × Frame)) (session : Session S)
        → IsSafe session.cluster
        → Serves (serve ctx remote_id ks frames session)
    unfolding serve
    serve-Serves ks [] session safe = record {
      sent = [];
      last = close session;
      returns = refl;
      safe = subst IsSafe (sym (close-same session)) safe;
    }
    serve-Serves ks ((moment, frame) ∷ frames) session safe =
        let round = handle-Served ks moment frame session safe in
        let rest = serve-Serves ks frames round.handled.2 round.safe in
        elim (Bool-cases round.handled.0) [
          | inl still ↦ record {
            sent = round.handled.1 ++ rest.sent;
            last = rest.last;
            returns = rw (round.returns, still, rest.returns) refl;
            safe = rest.safe;
          }
          | inr over ↦ record {
            sent = round.handled.1;
            last = close round.handled.2;
            returns = rw (round.returns, over) refl;
            safe = subst IsSafe (sym (close-same round.handled.2)) round.safe;
          }
        ]
