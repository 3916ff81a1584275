-- ===== src/Storage/QuickList/Range.antt =====
-- The elements of a quick list in order, and those of a range.
use fyro_db.Prelude.{
  drop_beyond, drop_to, drop_all, ℕ, suc, ◌≤◌, ◌≡◌, sym, ap, ◌∙◌, inl, inr, Option, some, List, [],
  ◌∷◌, ◌++◌, arith, ltb, ◌>>=◌, Bool-cases, length, take, drop, append_assoc, drop-append_length,
}
use fyro_db.Cluster.Topology.{Text}
use fyro_db.Storage.Chunk.{Chunk}
use fyro_db.Storage.Chunk.Held.{chunk_iter-Holds}
use fyro_db.Storage.QuickList.{QuickList, iter, iter_from_chunk, or_end, range}
use fyro_db.Storage.QuickList.Ends.{Chunked, Represents}
use fyro_db.Storage.QuickList.Locate.{locate-Finds, locate_beyond}
use fyro_db.Storage.QuickList.Walk.{Place}
use fyro_db.Storage.QuickList.Patch.{drop_at}

pub iter-Chunked :
    (chunks : List Chunk) (items : List Text) → Chunked chunks items → iter chunks ≡ some items
unfolding iter
iter-Chunked [] items e = ap some (sym e)
iter-Chunked (c ∷ chunks) items (x, xs, rest, h, e, later) =
    rw (chunk_iter-Holds c (x ∷ xs) h, iter-Chunked chunks rest later) (ap some (sym e))

iter_from_chunk-Place :
    (q : QuickList) (items : List Text) (idx ci j : ℕ)
    → Place q.chunks items idx ci j
    → iter_from_chunk j (drop ci q.chunks) ≡ some (drop idx items)
unfolding iter_from_chunk
iter_from_chunk-Place q items idx ci j p =
    let tail = p.here ∷ (p.right ++ p.behind) in
    let from : drop j (p.left ++ p.here ∷ p.right) ≡ p.here ∷ p.right =
      ap (λ n. drop n (p.left ++ p.here ∷ p.right)) (sym p.index)
      ∙ drop-append_length p.left (p.here ∷ p.right) in
    let rest : drop idx items ≡ tail =
      ap (drop idx)
        (p.content ∙ ap (λ l. p.before ++ l) (append_assoc p.left (p.here ∷ p.right) p.behind))
      ∙ ap (λ n. drop n (p.before ++ (p.left ++ tail))) p.place
      ∙ drop_at p.before p.left tail in
    ap (iter_from_chunk j) (drop_to ci q.chunks p.chunk p.at)
    ∙ ap
        (λ (o : Option (List Text)).
          o >>= λ held. iter (drop (suc ci) q.chunks) >>= λ rest. some (drop j held ++ rest))
        (chunk_iter-Holds p.chunk (p.left ++ p.here ∷ p.right) p.holds)
    ∙ ap
        (λ (o : Option (List Text)).
          o >>= λ rest. some (drop j (p.left ++ p.here ∷ p.right) ++ rest))
        (iter-Chunked (drop (suc ci) q.chunks) p.behind p.after)
    ∙ ap (λ l. some (l ++ p.behind)) from
    ∙ ap some (sym rest)

-- A range answers the elements from the index on, at most as many as are asked for, and none from
-- an index out of range.
pub range-Represents :
    (start count : ℕ) (q : QuickList) (items : List Text)
    → Represents q items
    → range start count q ≡ some (take count (drop start items))
unfolding range
range-Represents start count q items h = elim (Bool-cases (ltb start (length items))) [
  | inl low ↦
      let (ci, j, found, p) = locate-Finds start q items h (ground (arith, low)) in
      ap
        (λ (o : Option (ℕ × ℕ)).
          iter_from_chunk (or_end q o).1 (drop (or_end q o).0 q.chunks) >>= λ items.
          some (take count items))
        found
      ∙ ap (λ (o : Option (List Text)). o >>= λ items. some (take count items))
          (iter_from_chunk-Place q items start ci j p)
  | inr high ↦
      let beyond : length items ≤ start = ground (arith, high) in
      ap
        (λ (o : Option (ℕ × ℕ)).
          iter_from_chunk (or_end q o).1 (drop (or_end q o).0 q.chunks) >>= λ items.
          some (take count items))
        (locate_beyond start q items h beyond)
      ∙ ap (λ l. iter_from_chunk 0 l >>= λ items. some (take count items)) (drop_all q.chunks)
      ∙ ap some (ap (take count) (sym (drop_beyond start items beyond)))
]
