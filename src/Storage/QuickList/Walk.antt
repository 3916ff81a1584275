-- ===== src/Storage/QuickList/Walk.antt =====
-- The walk over the chunks from either end, to the place of an index.
use mathlib.Core.Path.{subst}
use fyro_db.Prelude.{
  split_at, ℕ, suc, ◌+◌, ◌-◌, ◌≤◌, ◌<◌, ◌≡◌, refl, sym, ap, ◌∙◌, inl, inr, true, false, Option,
  some, List, [], ◌∷◌, ◌++◌, arith, ltb, Bool-cases, length, get_elem?, take, drop, length-append,
  append_assoc,
}
use fyro_db.Cluster.Topology.{Text}
use fyro_db.Storage.Chunk.{Chunk, chunk_len}
use fyro_db.Storage.Chunk.Packed.{Holds}
use fyro_db.Storage.Chunk.Held.{chunk_len-Holds}
use fyro_db.Storage.QuickList.{locate_front, locate_back, backwards}
use fyro_db.Storage.QuickList.Ends.{Chunked}

-- An index of the items stands in some chunk at some index, the chunks before it hold the items
-- before and the ones behind it the items behind.
pub record Place (chunks : List Chunk) (items : List Text) (idx ci j : ℕ) : Type 0 where
  pub chunk : Chunk
  pub left : List Text
  pub here : Text
  pub right : List Text
  pub before : List Text
  pub behind : List Text
  pub at : get_elem? chunks ci ≡ some chunk
  pub holds : Holds chunk (left ++ here ∷ right)
  pub index : length left ≡ j
  pub content : items ≡ before ++ ((left ++ here ∷ right) ++ behind)
  pub place : idx ≡ length before + length left
  pub ahead : Chunked (take ci chunks) before
  pub after : Chunked (drop (suc ci) chunks) behind

module _ (c : Chunk) (chunks : List Chunk) (items : List Text) (x : Text) (xs rest : List Text)
    (h : Holds c (x ∷ xs)) (e : items ≡ x ∷ (xs ++ rest)) (later : Chunked chunks rest) where
  here-Place : (j : ℕ) → j < suc (length xs) → Place (c ∷ chunks) items j 0 j
  here-Place j low =
      let (u, y, v, split, n) = split_at (x ∷ xs) j low in
      record {
        chunk = c;
        left = u;
        here = y;
        right = v;
        before = [];
        behind = rest;
        at = refl;
        holds = subst (Holds c) split h;
        index = n;
        content = e ∙ ap (λ l. l ++ rest) split;
        place = omega (arith, n);
        ahead = refl;
        after = later;
      }

  later-Place :
      (r ci j : ℕ)
      → Place chunks rest r ci j
      → Place (c ∷ chunks) items (suc (length xs) + r) (suc ci) j
  later-Place r ci j p = record {
    chunk = p.chunk;
    left = p.left;
    here = p.here;
    right = p.right;
    before = x ∷ (xs ++ p.before);
    behind = p.behind;
    at = p.at;
    holds = p.holds;
    index = p.index;
    content =
        e
        ∙ ap (λ r. x ∷ (xs ++ r)) p.content
        ∙ ap (λ l. x ∷ l)
            (sym (append_assoc xs p.before ((p.left ++ p.here ∷ p.right) ++ p.behind)));
    place = omega (arith, p.place, length-append xs p.before);
    ahead = (x, xs, p.before, h, refl, p.ahead);
    after = p.after;
  }

-- The result of a search: where it is.
abbrev pub Finds : Option (ℕ × ℕ) → ℕ → List Chunk → List Text → ℕ → Type 0
Finds result k chunks items idx =
    (ci : ℕ) × (j : ℕ) × (result ≡ some (k + ci, j)) × Place chunks items idx ci j

pub locate_front-Finds :
    (k r : ℕ) (chunks : List Chunk) (items : List Text)
    → Chunked chunks items
    → r < length items
    → Finds (locate_front k r chunks) k chunks items r
unfolding locate_front
locate_front-Finds k r [] items e low = absurd (omega (arith, ap (length {A = Text}) e, low))
locate_front-Finds k r (c ∷ chunks) items (x, xs, rest, h, e, later) low =
    elim (Bool-cases (ltb r (suc (length xs)))) [
      | inl within ↦ (
        0,
        r,
        rw (chunk_len-Holds c (x ∷ xs) h, within) (ap (λ n. some (n, r)) (omega arith)),
        here-Place c chunks items x xs rest h e later r (ground (arith, within)),
      )
      | inr past ↦
          let (ci, j, made, p) =
            locate_front-Finds (k + 1) (r - suc (length xs)) chunks rest later
              (ground (arith, past, low, ap (length {A = Text}) e, length-append xs rest)) in
          (
            suc ci,
            j,
            rw (chunk_len-Holds c (x ∷ xs) h, past) (made ∙ ap (λ n. some (n, j)) (omega arith)),
            subst (λ i. Place (c ∷ chunks) items i (suc ci) j) (ground (arith, past))
                (later-Place c chunks items x xs rest h e later (r - suc (length xs)) ci j p),
          )
    ]

abbrev total : List Chunk → ℕ
total [] = 0
total (c ∷ chunks) = chunk_len c + total chunks

total-append :
    (chunks : List Chunk) (c : Chunk) → total (chunks ++ c ∷ []) ≡ total chunks + chunk_len c
total-append [] c = omega arith
total-append (d ∷ chunks) c = omega (arith, total-append chunks c)

total-backwards :
    (chunks : List Chunk) (items : List Text)
    → Chunked chunks items
    → total (backwards chunks) ≡ length items
total-backwards [] items e = sym (ap (length {A = Text}) e)
total-backwards (c ∷ chunks) items (x, xs, rest, h, e, later) = omega (
  arith,
  total-append (backwards chunks) c,
  chunk_len-Holds c (x ∷ xs) h,
  total-backwards chunks rest later,
  ap (length {A = Text}) e,
  length-append xs rest,
)

-- One more chunk behind the ones that are searched.
locate_back_found :
    (r : ℕ) (chunks : List Chunk) (c : Chunk) (i j : ℕ)
    → locate_back r chunks ≡ some (i, j)
    → locate_back r (chunks ++ c ∷ []) ≡ some (suc i, j)
unfolding locate_back
locate_back_found r [] c i j e = cc
locate_back_found r (d ∷ chunks) c i j e = elim (Bool-cases (ltb r (chunk_len d))) [
  | inl within ↦ rw within (ground (arith, rw within at e, length-append chunks (c ∷ [])))
  | inr past ↦ rw past (locate_back_found (r - chunk_len d) chunks c i j (rw past at e))
]

locate_back_past :
    (r : ℕ) (chunks : List Chunk) (c : Chunk)
    → total chunks ≤ r
    → locate_back r (chunks ++ c ∷ []) ≡ locate_back (r - total chunks) (c ∷ [])
unfolding locate_back
locate_back_past r [] c h = ap (λ n. locate_back n (c ∷ [])) (omega arith)
locate_back_past r (d ∷ chunks) c h =
    let past : ltb r (chunk_len d) ≡ false = ground (arith, h) in
    rw past (
      locate_back_past (r - chunk_len d) chunks c (omega (arith, h))
      ∙ ap (λ n. locate_back n (c ∷ [])) (omega (arith, h)))

pub locate_back-Finds :
    (r : ℕ) (chunks : List Chunk) (items : List Text)
    → Chunked chunks items
    → r < length items
    → Finds (locate_back r (backwards chunks)) 0 chunks items (length items - 1 - r)
locate_back-Finds r [] items e low = absurd (omega (arith, ap (length {A = Text}) e, low))
locate_back-Finds r (c ∷ chunks) items (x, xs, rest, h, e, later) low =
    let many : length items ≡ suc (length xs) + length rest =
      omega (arith, ap (length {A = Text}) e, length-append xs rest) in
    elim (Bool-cases (ltb r (length rest))) [
      | inl within ↦
          let (ci, j, made, p) = locate_back-Finds r chunks rest later (ground (arith, within)) in
          (
            suc ci,
            j,
            locate_back_found r (backwards chunks) c ci j
                  (made ∙ ap (λ n. some (n, j)) (omega arith))
                ∙ ap (λ n. some (n, j)) (omega arith),
            subst (λ i. Place (c ∷ chunks) items i (suc ci) j) (ground (arith, within, many))
                (later-Place c chunks items x xs rest h e later (length rest - 1 - r) ci j p),
          )
      | inr past ↦
          let j = suc (length xs) - 1 - (r - length rest) in
          (
            0,
            j,
            locate_back_past r (backwards chunks) c
                  (ground (arith, past, total-backwards chunks rest later))
                ∙ ap (λ n. locate_back (r - n) (c ∷ [])) (total-backwards chunks rest later)
                ∙ alone past,
            subst (λ i. Place (c ∷ chunks) items i 0 j) (ground (arith, past, many, low))
                (here-Place c chunks items x xs rest h e later j (omega arith)),
          )
    ]
  where
    alone :
        ltb r (length rest) ≡ false
        → locate_back (r - length rest) (c ∷ []) ≡ some (0, suc (length xs) - 1 - (r - length rest))
    alone past =
        let inside : ltb (r - length rest) (suc (length xs)) ≡ true =
          ground (arith, past, low, ap (length {A = Text}) e, length-append xs rest) in
        unfold locate_back in rw (chunk_len-Holds c (x ∷ xs) h, inside) refl
