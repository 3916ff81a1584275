-- ===== src/Cluster/Tests/Wire.antt =====
-- The wire form of the topology of the tests.
use fyro_db.Prelude.{◌≡◌, refl, true, [], arith, codes, length, ◌≤◌}
use fyro_db.Prelude.Utf8.{is_utf8, utf8_from}
use fyro_db.Cluster.Topology.{Text}
use fyro_db.Cluster.Transport.TopologyCodec.{value, ◌>>=◌, encode_topology, decode_topology}
use fyro_db.Cluster.Transport.TopologyCodec.RoundTrip.{
  IsString, IsCodable, decode_topology-encode_topology,
}
use fyro_db.Cluster.Tests.{p, r, two_nodes}

short-IsString : (text : Text) → is_utf8 text ≡ true → length text ≤ 65535 → IsString text
short-IsString text e h = record { utf8 = e; short = h }

p-IsCodable : IsCodable p
unfolding is_utf8 utf8_from
p-IsCodable = record {
  id = short-IsString (codes "p") refl (omega arith);
  address = short-IsString (codes "p:8000") refl (omega arith);
  cluster_address = short-IsString (codes "p:18000") refl (omega arith);
  replica_of = short-IsString [] refl (omega arith);
  named = refl;
  epoch = omega arith;
  count = omega arith;
  slots = ((omega arith, omega arith), tt);
}

r-IsCodable : IsCodable r
unfolding is_utf8 utf8_from
r-IsCodable = record {
  id = short-IsString (codes "r") refl (omega arith);
  address = short-IsString (codes "r:8000") refl (omega arith);
  cluster_address = short-IsString (codes "r:18000") refl (omega arith);
  replica_of = short-IsString (codes "p") refl (omega arith);
  named = refl;
  epoch = omega arith;
  count = omega arith;
  slots = tt;
}

decode_topology-encode_topology_example :
    (encode_topology two_nodes >>= decode_topology) ≡ value two_nodes
decode_topology-encode_topology_example =
    decode_topology-encode_topology two_nodes (omega arith) (omega arith)
      (p-IsCodable, (r-IsCodable, tt))
