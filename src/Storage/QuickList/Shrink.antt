-- ===== src/Storage/QuickList/Shrink.antt =====
-- A pop at either end of a quick list takes the element at that end of what it holds.
use mathlib.Core.Path.{subst}
use fyro_db.Prelude.{
  split_last, suc, ◌≡◌, refl, sym, ap, ◌∙◌, ◌⊎◌, inl, inr, false, Option, none, some, List, [], ◌∷◌,
  ◌++◌, arith, ◌==◌, length, append-nil,
}
use fyro_db.Cluster.Topology.{Text}
use fyro_db.Storage.Chunk.{Chunk}
use fyro_db.Storage.Chunk.Packed.{Holds}
use fyro_db.Storage.Chunk.Held.{Gives, chunk_len-Holds, drop_front-Holds, drop_back-Holds}
use fyro_db.Storage.QuickList.{
  QuickList, keep_chunk, pop_first, pop_last, counted, pop_front, pop_back,
}
use fyro_db.Storage.QuickList.Ends.{Chunked, Represents}

keep_chunk-Chunked :
    (c : Chunk) (chunks : List Chunk) (xs rest : List Text)
    → Holds c xs
    → Chunked chunks rest
    → Chunked (keep_chunk c chunks) (xs ++ rest)
unfolding keep_chunk
keep_chunk-Chunked c chunks [] rest h later = rw (chunk_len-Holds c [] h) later
keep_chunk-Chunked c chunks (x ∷ xs) rest h later =
    let some_left : (suc (length xs) == 0) ≡ false = ground arith in
    rw (chunk_len-Holds c (x ∷ xs) h, some_left) (x, xs, rest, h, refl, later)

-- What a pop answers, and what is left: the element, or none of an empty list.
abbrev pub Popped : Option Text × QuickList → Option Text → List Text → Type 0
Popped result popped items = (result.0 ≡ popped) × Represents result.1 items

-- The first element and the others.
abbrev pub first : List Text → Option Text
first [] = none
first (x ∷ items) = some x

abbrev pub others : List Text → List Text
others [] = []
others (x ∷ items) = items

pop_first-Chunked :
    (chunks : List Chunk) (items : List Text)
    → Chunked chunks items
    → Gives
        (pop_first chunks)
        (λ popped. (popped.0 ≡ first items) × Chunked popped.1 (others items))
unfolding pop_first
pop_first-Chunked [] items e = ((none, []), refl, rw e (refl, refl))
pop_first-Chunked (c ∷ chunks) items (x, xs, rest, h, e, later) =
    let (left, made, hl) = drop_front-Holds c x xs h in
    (
      (some x, keep_chunk left chunks),
      rw made refl,
      rw e (refl, keep_chunk-Chunked left chunks xs rest hl later),
    )

counted-Popped :
    (q : QuickList) (popped : Option Text × List Chunk) (items left : List Text)
    → Represents q items
    → Chunked popped.1 left
    → (popped.0 ≡ none) × (items ≡ left)
      ⊎ (x : Text) × (popped.0 ≡ some x) × (length items ≡ suc (length left))
    → Popped (counted q popped) popped.0 left
counted-Popped q (none, chunks) items left h hc (inl (e, same)) =
    (refl, subst (Represents q) same h)
counted-Popped q (none, chunks) items left h hc (inr (x, e, more)) = absurd (cc)
counted-Popped q (some x, chunks) items left h hc (inl (e, same)) = absurd (cc)
counted-Popped q (some x, chunks) items left h hc (inr (y, e, more)) =
    (refl, record { chunked = hc; count = omega (arith, h.count, more) })

-- A pop at the front answers the first element and leaves the others.
pub pop_front-Represents :
    (q : QuickList) (items : List Text)
    → Represents q items
    → Gives (pop_front q) (λ result. Popped result (first items) (others items))
unfolding pop_front
pop_front-Represents q items h =
    let (popped, made, hp) = pop_first-Chunked q.chunks items h.chunked in
    let done = counted-Popped q popped items (others items) h hp.1 (sides items popped.0 hp.0) in
    (counted q popped, rw made refl, (done.0 ∙ hp.0, done.1))
  where
    sides :
        (items : List Text) (popped : Option Text)
        → popped ≡ first items
        → (popped ≡ none) × (items ≡ others items)
          ⊎ (x : Text) × (popped ≡ some x) × (length items ≡ suc (length (others items)))
    sides [] popped e = inl (e, refl)
    sides (x ∷ items) popped e = inr (x, e, refl)

-- The last element and the ones before it.
abbrev pub last : List Text → Option Text
last [] = none
last (x ∷ []) = some x
last (x ∷ y ∷ items) = last (y ∷ items)

abbrev pub init : List Text → List Text
init [] = []
init (x ∷ []) = []
init (x ∷ y ∷ items) = x ∷ init (y ∷ items)

last-append : (items : List Text) (x : Text) → last (items ++ x ∷ []) ≡ some x
last-append [] x = refl
last-append (y ∷ []) x = refl
last-append (y ∷ z ∷ items) x = last-append (z ∷ items) x

init-append : (items : List Text) (x : Text) → init (items ++ x ∷ []) ≡ items
init-append [] x = refl
init-append (y ∷ []) x = refl
init-append (y ∷ z ∷ items) x = ap (λ l. y ∷ l) (init-append (z ∷ items) x)

last-behind :
    (x : Text) (xs : List Text) (y : Text) (ys : List Text)
    → last (x ∷ (xs ++ y ∷ ys)) ≡ last (y ∷ ys)
last-behind x [] y ys = refl
last-behind x (z ∷ xs) y ys = last-behind z xs y ys

init-behind :
    (x : Text) (xs : List Text) (y : Text) (ys : List Text)
    → init (x ∷ (xs ++ y ∷ ys)) ≡ x ∷ (xs ++ init (y ∷ ys))
init-behind x [] y ys = refl
init-behind x (z ∷ xs) y ys = ap (λ l. x ∷ l) (init-behind z xs y ys)

pop_last-Chunked :
    (chunks : List Chunk) (items : List Text)
    → Chunked chunks items
    → Gives (pop_last chunks) (λ popped. (popped.0 ≡ last items) × Chunked popped.1 (init items))
unfolding pop_last
pop_last-Chunked [] items e = ((none, []), refl, rw e (refl, refl))
pop_last-Chunked (c ∷ []) items (x, xs, rest, h, e, nothing) =
    let (before, back, split) = split_last x xs in
    let (left, made, hl) = drop_back-Holds c back before (subst (Holds c) split h) in
    let whole : items ≡ before ++ back ∷ [] =
      e ∙ ap (λ r. x ∷ (xs ++ r)) nothing ∙ ap (λ l. x ∷ l) (append-nil xs) ∙ split in
    (
      (some back, keep_chunk left []),
      rw made refl,
      (
        sym (ap last whole ∙ last-append before back),
        subst (Chunked (keep_chunk left []))
            (append-nil before ∙ sym (ap init whole ∙ init-append before back))
            (keep_chunk-Chunked left [] before [] hl refl),
      ),
    )
pop_last-Chunked (c ∷ next ∷ chunks) items (x, xs, rest, h, e, later) =
    let (popped, made, hp) = pop_last-Chunked (next ∷ chunks) rest later in
    let (y, ys, behind, hy, ey, hb) = later in
    (
      (popped.0, c ∷ popped.1),
      rw made refl,
      (
        hp.0
            ∙ ap last ey
            ∙ sym (last-behind x xs y (ys ++ behind))
            ∙ ap last (sym (e ∙ ap (λ r. x ∷ (xs ++ r)) ey)),
        (
          x,
          xs,
          init rest,
          h,
          ap init (e ∙ ap (λ r. x ∷ (xs ++ r)) ey)
              ∙ init-behind x xs y (ys ++ behind)
              ∙ ap (λ r. x ∷ (xs ++ init r)) (sym ey),
          hp.1,
        ),
      ),
    )

-- A pop at the back answers the last element and leaves the others.
pub pop_back-Represents :
    (q : QuickList) (items : List Text)
    → Represents q items
    → Gives (pop_back q) (λ result. Popped result (last items) (init items))
unfolding pop_back
pop_back-Represents q items h =
    let (popped, made, hp) = pop_last-Chunked q.chunks items h.chunked in
    let done = counted-Popped q popped items (init items) h hp.1 (sides items popped.0 hp.0) in
    (counted q popped, rw made refl, (done.0 ∙ hp.0, done.1))
  where
    length-init : (x : Text) (items : List Text) → length (init (x ∷ items)) ≡ length items
    length-init x [] = refl
    length-init x (y ∷ items) = ap suc (length-init y items)

    found : (x : Text) (items : List Text) → (y : Text) × (last (x ∷ items) ≡ some y)
    found x [] = (x, refl)
    found x (y ∷ items) = found y items

    sides :
        (items : List Text) (popped : Option Text)
        → popped ≡ last items
        → (popped ≡ none) × (items ≡ init items)
          ⊎ (x : Text) × (popped ≡ some x) × (length items ≡ suc (length (init items)))
    sides [] popped e = inl (e, refl)
    sides (x ∷ items) popped e =
        let (y, ey) = found x items in inr (y, e ∙ ey, ap suc (sym (length-init x items)))
