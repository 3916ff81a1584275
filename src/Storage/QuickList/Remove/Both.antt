-- ===== src/Storage/QuickList/Remove/Both.antt =====
-- A removal from either end of a quick list is one from its elements.
use mathlib.Core.Path.{subst}
use fyro_db.Prelude.{
  ℕ, ◌-◌, ◌≡◌, refl, sym, ap, ◌∙◌, Bool, true, false, Option, some, List, [], ◌∷◌, ◌++◌, arith,
  ◌>>=◌, length-append, append-nil, append_assoc, split_last,
}
use fyro_db.Cluster.Topology.{Text}
use fyro_db.Storage.Chunk.{Chunk}
use fyro_db.Storage.Chunk.Packed.{Holds}
use fyro_db.Storage.Chunk.Held.{Gives}
use fyro_db.Storage.QuickList.{QuickList, backwards}
use fyro_db.Storage.QuickList.Ends.{Chunked, Represents}
use fyro_db.Storage.QuickList.Rewrite.{Chunked-append}
use fyro_db.Storage.QuickList.Pieces.{backwards-append, backwards-backwards, Chunked-single}
use fyro_db.Storage.QuickList.Remove.{flip, remove_some, remove_matching}
use fyro_db.Storage.QuickList.Remove.Elements.{length-remove_some, length-flip, without}
use fyro_db.Storage.QuickList.Remove.Along.{Along, remove_chunks-Along}

Along-append :
    (from_back : Bool) (a b : List Chunk) (u v : List Text)
    → Along from_back a u
    → Along from_back b v
    → Along from_back (a ++ b) (u ++ v)
Along-append from_back [] b u v e hv = subst (Along from_back b) (sym (ap (λ l. l ++ v) e)) hv
Along-append from_back (c ∷ a) b u v (x, xs, rest, h, e, later) hv = (
  x,
  xs,
  rest ++ v,
  h,
  ap (λ l. l ++ v) e ∙ ap (λ l. x ∷ l) (append_assoc xs rest v),
  Along-append from_back a b rest v later hv,
)

-- From the front the order is that of the quick list.
Chunked-Along :
    (chunks : List Chunk) (items : List Text) → Chunked chunks items → Along false chunks items
Chunked-Along [] items e = e
Chunked-Along (c ∷ chunks) items (x, xs, rest, h, e, later) =
    (x, xs, rest, h, e, Chunked-Along chunks rest later)

Along-Chunked :
    (chunks : List Chunk) (items : List Text) → Along false chunks items → Chunked chunks items
Along-Chunked [] items e = e
Along-Chunked (c ∷ chunks) items (x, xs, rest, h, e, later) =
    (x, xs, rest, h, e, Along-Chunked chunks rest later)

-- The last element of a chunk comes first from the back.
Along-single :
    (c : Chunk) (x : Text) (xs : List Text)
    → Holds c (x ∷ xs)
    → Along true (c ∷ []) (backwards (x ∷ xs))
Along-single c x xs h =
    let (before, back, split) = split_last x xs in
    let turned : backwards (x ∷ xs) ≡ back ∷ backwards before =
      ap (backwards {A = Text}) split ∙ backwards-append before (back ∷ []) in
    (
      back,
      backwards before,
      [],
      subst (Holds c) (sym (ap (backwards {A = Text}) (sym turned) ∙ backwards-backwards (x ∷ xs)))
          h,
      turned ∙ sym (ap (λ l. back ∷ l) (append-nil (backwards before))),
      refl,
    )

Chunked-Along-backwards :
    (chunks : List Chunk) (items : List Text)
    → Chunked chunks items
    → Along true (backwards chunks) (backwards items)
Chunked-Along-backwards [] items e = ap (backwards {A = Text}) e
Chunked-Along-backwards (c ∷ chunks) items (x, xs, rest, h, e, later) =
    subst (Along true (backwards chunks ++ c ∷ []))
      (sym (ap (backwards {A = Text}) e ∙ backwards-append (x ∷ xs) rest))
      (Along-append true (backwards chunks) (c ∷ []) (backwards rest) (backwards (x ∷ xs))
        (Chunked-Along-backwards chunks rest later) (Along-single c x xs h))

Along-Chunked-backwards :
    (chunks : List Chunk) (items : List Text)
    → Along true chunks items
    → Chunked (backwards chunks) (backwards items)
Along-Chunked-backwards [] items e = ap (backwards {A = Text}) e
Along-Chunked-backwards (c ∷ chunks) items (x, xs, rest, h, e, later) =
    subst (Chunked (backwards chunks ++ c ∷ []))
      (sym (ap (backwards {A = Text}) e ∙ backwards-append (x ∷ xs) rest))
      (Chunked-append (backwards chunks) (c ∷ []) (backwards rest) (backwards (x ∷ xs))
        (Along-Chunked-backwards chunks rest later)
        (Chunked-single c (backwards (x ∷ xs)) h
          (omega (arith, length-append (backwards xs) (x ∷ [])))))

Along-flip :
    (from_back : Bool) (chunks : List Chunk) (items : List Text)
    → Chunked chunks items
    → Along from_back (flip from_back chunks) (flip from_back items)
Along-flip false chunks items h = Chunked-Along chunks items h
Along-flip true chunks items h = Chunked-Along-backwards chunks items h

Chunked-flip :
    (from_back : Bool) (chunks : List Chunk) (items : List Text)
    → Along from_back chunks items
    → Chunked (flip from_back chunks) (flip from_back items)
Chunked-flip false chunks items h = Along-Chunked chunks items h
Chunked-flip true chunks items h = Along-Chunked-backwards chunks items h

-- A removal takes out of the list what the loop takes out of its elements, and returns how many.
pub remove_matching-Represents :
    (value : Text) (limit : ℕ) (from_back : Bool) (q : QuickList) (items : List Text)
    → Represents q items
    → Gives (remove_matching value limit from_back q) (λ (removed, after).
      (removed ≡ (without value limit from_back items).0)
      × Represents after (without value limit from_back items).1)
unfolding remove_matching
remove_matching-Represents value limit from_back q items h =
    let left = remove_some value limit (flip from_back items) in
    let (after, made, (ha, count)) =
      remove_chunks-Along from_back value limit (flip from_back q.chunks) (flip from_back items)
        (Along-flip from_back q.chunks items h.chunked) in
    (
      (after.1, record { chunks = flip from_back after.0; len = q.len - after.1 }),
      ap
          (λ (o : Option (List Chunk × ℕ)).
            o >>= λ p. some (p.1, record { chunks = flip from_back p.0; len = q.len - p.1 }))
          made,
      (
        count,
        record {
          chunked = Chunked-flip from_back after.0 left.0 ha;
          count = omega (
            arith,
            count,
            h.count,
            length-flip from_back left.0,
            length-flip from_back items,
            length-remove_some value limit (flip from_back items),
          );
        },
      ),
    )
