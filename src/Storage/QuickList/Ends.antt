-- ===== src/Storage/QuickList/Ends.antt =====
-- A quick list that holds some elements, and what it holds after one is put in or taken off at an
-- end.
use fyro_db.Prelude.{◌≡◌, List, [], ◌∷◌, ◌++◌, length}
use fyro_db.Cluster.Topology.{Text}
use fyro_db.Storage.Chunk.{Chunk}
use fyro_db.Storage.Chunk.Packed.{Holds}
use fyro_db.Storage.QuickList.{QuickList}

-- The chunks hold the items in order, and none is empty.
abbrev pub Chunked : List Chunk → List Text → Type 0
Chunked [] items = items ≡ []
Chunked (c ∷ chunks) items =
    (x : Text) × (xs : List Text) × (rest : List Text) × Holds c (x ∷ xs)
    × (items ≡ x ∷ (xs ++ rest))
    × Chunked chunks rest

-- The list holds the items.
pub record Represents (q : QuickList) (items : List Text) : Type 0 where
  pub chunked : Chunked q.chunks items
  pub count : q.len ≡ length items
