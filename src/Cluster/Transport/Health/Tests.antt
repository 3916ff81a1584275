-- ===== src/Cluster/Transport/Health/Tests.antt =====
-- A connection that answers, closes and opens again.
use fyro_db.Prelude.{◌≡◌, some, [], ◌∷◌, arith}
use fyro_db.Cluster.Transport.Health.{
  PeerHealthSnapshot, new_health, connecting, connected, pong, disconnected,
}
use fyro_db.Cluster.Transport.Health.Timing.{
  Reached, fresh, after, dials, opens, answers, closes, answered, closed, late, connected-late,
}

abbrev reopened : PeerHealthSnapshot
reopened =
    (connected 9 (disconnected (some 1) (pong 5 1 (connected 3 (connecting new_health)).1))).1

reopened-Reached : Reached reopened
reopened-Reached =
    after
      (after (after (after (after fresh (dials _)) (opens 3 _)) (answers 5 1 _))
        (closes (some 1) _))
      (opens 9 _)

connected-late_example :
    late 0 (answered 4 ∷ closed ∷ []) (connected 3 new_health).1 ≡ (connected 3 new_health).1
unfolding new_health
connected-late_example = connected-late 3 (answered 4 ∷ closed ∷ []) new_health (omega arith)
