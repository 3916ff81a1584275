-- ===== src/Storage/QuickList/Broken.antt =====
-- A chunk of one element that gets a value of more bytes than a chunk should have.
use fyro_db.Prelude.{
  ℕ, zero, suc, ◌+◌, ◌-◌, ◌<◌, ◌≡◌, refl, ap, ◌∙◌, true, false, Option, none, some, List, [], ◌∷◌,
  arith, leb, ◌>>=◌, length,
}
use fyro_db.Cluster.Topology.{Text}
use fyro_db.Storage.Chunk.{
  Chunk, new_chunk, chunk_len, chunk_get, append_all, drop_front, chunk_bytes,
}
use fyro_db.Storage.Chunk.Packed.{Holds}
use fyro_db.Storage.Chunk.Held.{chunk_iter-Holds}
use fyro_db.Storage.QuickList.{
  QuickList, locate, rewrite_chunk, assign, pop_front, pop_first, counted, total_bytes,
}
use fyro_db.Storage.QuickList.Ends.{Chunked}
use fyro_db.Storage.QuickList.Locate.{locate-Finds}
use fyro_db.Storage.QuickList.Walk.{Place}
use fyro_db.Storage.QuickList.Patch.{assign_step}

-- The first index is the first of the first chunk.
first-Place :
    (c : Chunk) (chunks : List Chunk) (items : List Text) (ci j : ℕ)
    → Place (c ∷ chunks) items 0 ci j
    → (ci ≡ 0) × (j ≡ 0)
first-Place c chunks items zero j p = (refl, omega (arith, p.place, p.index))
first-Place c chunks items (suc ci) j p =
    let (x, xs, rest, h, e, later) = p.ahead in
    absurd (omega (arith, p.place, ap (length {A = Text}) e))

pop_first-empty : (chunks : List Chunk) → pop_first (new_chunk ∷ chunks) ≡ none
unfolding pop_first drop_front chunk_get
pop_first-empty chunks = refl

rewrite_chunk-alone :
    (value : Text) (c : Chunk) (chunks : List Chunk) (len : ℕ)
    → chunk_bytes < length value
    → rewrite_chunk 0 (value ∷ []) (record { chunks = c ∷ chunks; len = len })
      ≡ some (record {
        chunks = new_chunk ∷ append_all (value ∷ []) new_chunk ∷ chunks;
        len = len - chunk_len c + 1;
      })
unfolding rewrite_chunk append_all
rewrite_chunk-alone value c chunks len long =
    let over : leb (total_bytes (value ∷ [])) chunk_bytes ≡ false = ground (arith, long) in
    rw over refl

-- A value of more than 4096 bytes that is assigned to the only element of the first chunk leaves an
-- empty chunk in front, where the next pop panics.
pub pop_front-assign :
    (value x : Text) (c : Chunk) (chunks : List Chunk) (rest : List Text)
    → Holds c (x ∷ [])
    → Chunked chunks rest
    → chunk_bytes < length value
    → (after : QuickList) × (assign 0 value
          (record { chunks = c ∷ chunks; len = suc (length rest) })
        ≡ some (true, after))
      × (pop_front after ≡ none)
pop_front-assign value x c chunks rest h later long =
    let (ci, j, found, p) =
      locate-Finds 0 q (x ∷ rest) (record { chunked = (x, [], rest, h, refl, later); count = refl })
        (omega arith) in
    let (first, start) = first-Place c chunks (x ∷ rest) ci j p in
    let at_start : locate 0 q ≡ some (0, 0) =
      found ∙ ap (λ n. some (n, j)) first ∙ ap (λ n. some (0, n)) start in
    (
      after,
      assign_step 0 0 0 value q c (x ∷ []) at_start refl (chunk_iter-Holds c (x ∷ []) h)
            (ground arith)
          ∙ ap (λ (o : Option QuickList). o >>= λ after. some (true, after))
              (rewrite_chunk-alone value c chunks (suc (length rest)) long),
      unfold pop_front in
          ap
            (λ (o : Option (Option Text × List Chunk)). o >>= λ popped. some (counted after popped))
            (pop_first-empty (append_all (value ∷ []) new_chunk ∷ chunks)),
    )
  where
    q : QuickList
    q = record { chunks = c ∷ chunks; len = suc (length rest) }

    after : QuickList
    after = record {
      chunks = new_chunk ∷ append_all (value ∷ []) new_chunk ∷ chunks;
      len = suc (length rest) - chunk_len c + 1;
    }
