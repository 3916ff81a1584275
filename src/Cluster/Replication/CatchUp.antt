-- ===== src/Cluster/Replication/CatchUp.antt =====
-- A replica that is sent the retained part of the log catches up.
