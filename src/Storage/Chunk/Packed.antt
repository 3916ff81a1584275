-- ===== src/Storage/Chunk/Packed.antt =====
-- What the operations of a chunk do to the elements it holds.
use fyro_db.Prelude.{
  get_elem?-append, ℕ, suc, ◌+◌, ◌-◌, ◌^◌, ◌<◌, ◌≡◌, refl, sym, ap, ◌∙◌, true, some, List, [], ◌∷◌,
  ◌++◌, arith, leb, le→leb, length, get_elem?, length-append, append_assoc, take-append_length,
  drop-append_length,
}
use fyro_db.Cluster.Topology.{Text}
use fyro_db.Storage.Chunk.{Chunk, chunk_len, slice, at_offset, chunk_get, iter_from, chunk_iter}

abbrev pub join : List Text → List ℕ
join [] = []
join (s ∷ items) = s ++ join items

-- The offsets of elements from a base on.
abbrev pub ends : ℕ → List Text → List ℕ
ends base [] = base ∷ []
ends base (s ∷ items) = base ∷ ends (base + length s) items

-- The chunk that holds the items behind a dead part of the buffer and dead offsets.
abbrev pub packed : List ℕ → List ℕ → List Text → Chunk
packed gap dead items = record {
  bytes = gap ++ join items;
  offs = dead ++ ends (length gap) items;
  head = length dead;
}

pub join-append : (u v : List Text) → join (u ++ v) ≡ join u ++ join v
join-append [] v = refl
join-append (s ∷ u) v = ap (λ b. s ++ b) (join-append u v) ∙ sym (append_assoc s (join u) (join v))

pub length-ends : (base : ℕ) (items : List Text) → length (ends base items) ≡ suc (length items)
length-ends base [] = refl
length-ends base (s ∷ items) = ap suc (length-ends (base + length s) items)

pub ends-append :
    (base : ℕ) (items : List Text) (s : Text)
    → ends base (items ++ s ∷ []) ≡ ends base items ++ (base + length (join items) + length s) ∷ []
ends-append base [] s = ap (λ n. base ∷ n ∷ []) (omega arith)
ends-append base (x ∷ items) s =
    ap (λ l. base ∷ l)
      (ends-append (base + length x) items s
        ∙ ap (λ n. ends (base + length x) items ++ n ∷ [])
            (omega (arith, length-append x (join items))))

get_elem?-ends :
    (base : ℕ) (u v : List Text)
    → get_elem? (ends base (u ++ v)) (length u) ≡ some (base + length (join u))
get_elem?-ends base [] [] = ap some (omega arith)
get_elem?-ends base [] (x ∷ v) = ap some (omega arith)
get_elem?-ends base (x ∷ u) v =
    get_elem?-ends (base + length x) u v ∙ ap some (omega (arith, length-append x (join u)))

pub slice_mid :
    (a x b : List ℕ) (from to : ℕ)
    → from ≡ length a
    → to ≡ length a + length x
    → slice from to (a ++ (x ++ b)) ≡ some x
unfolding slice
slice_mid a x b from to ef et =
    let low : leb from to ≡ true = le→leb from to (omega arith) in
    let high : leb to (length (a ++ (x ++ b))) ≡ true =
      le→leb to (length (a ++ (x ++ b)))
        (omega (arith, length-append a (x ++ b), length-append x b)) in
    let width : to - from ≡ length x = omega arith in
    rw (low, high, width, ef, drop-append_length, take-append_length) refl

module _ (gap dead : List ℕ) where
  pub chunk_len-packed : (items : List Text) → chunk_len (packed gap dead items) ≡ length items
  unfolding chunk_len
  chunk_len-packed items =
      omega (arith, length-append dead (ends (length gap) items), length-ends (length gap) items)

  pub offset-packed :
      (u v : List Text)
      → get_elem? (dead ++ ends (length gap) (u ++ v)) (length dead + length u)
        ≡ some (length (gap ++ join u))
  offset-packed u v =
      get_elem?-append dead (ends (length gap) (u ++ v)) (length u)
      ∙ get_elem?-ends (length gap) u v
      ∙ ap some (sym (length-append gap (join u)))

  at_offset-packed :
      (u v : List Text) (x : Text)
      → at_offset (packed gap dead (u ++ x ∷ v)) (length dead + length u) ≡ some x
  unfolding at_offset
  at_offset-packed u v x =
      rw (offset-packed u (x ∷ v), next)
        (ap (slice (length (gap ++ join u)) (length (gap ++ join u) + length x)) buffer
          ∙ slice_mid (gap ++ join u) x (join v) (length (gap ++ join u))
              (length (gap ++ join u) + length x) refl refl)
    where
      buffer : gap ++ join (u ++ x ∷ v) ≡ (gap ++ join u) ++ (x ++ join v)
      buffer =
          ap (λ b. gap ++ b) (join-append u (x ∷ v)) ∙ sym (append_assoc gap (join u) (x ++ join v))

      behind : length dead + length u + 1 ≡ length dead + length (u ++ x ∷ [])
      behind = omega (arith, length-append u (x ∷ []))

      next :
          get_elem? (dead ++ ends (length gap) (u ++ x ∷ v)) (length dead + length u + 1)
          ≡ some (length (gap ++ join u) + length x)
      next =
          ap (get_elem? (dead ++ ends (length gap) (u ++ x ∷ v))) behind
          ∙ ap (λ l. get_elem? (dead ++ ends (length gap) l) (length dead + length (u ++ x ∷ [])))
              (sym (append_assoc u (x ∷ []) v))
          ∙ offset-packed (u ++ x ∷ []) v
          ∙ ap some (
              omega (
                arith,
                length-append gap (join (u ++ x ∷ [])),
                length-append gap (join u),
                ap (length {A = ℕ}) (join-append u (x ∷ [])),
                length-append (join u) (x ++ []),
                length-append x ([]),
              ))

  pub chunk_get-packed :
      (u v : List Text) (x : Text) → chunk_get (packed gap dead (u ++ x ∷ v)) (length u) ≡ some x
  unfolding chunk_get
  chunk_get-packed u v x = at_offset-packed u v x

  iter_from-packed :
      (u v : List Text)
      → iter_from (packed gap dead (u ++ v)) (length dead + length u) (length v) ≡ some v
  unfolding iter_from
  iter_from-packed u [] = refl
  iter_from-packed u (x ∷ v) =
      let ahead : length dead + length u + 1 ≡ length dead + length (u ++ x ∷ []) =
        omega (arith, length-append u (x ∷ [])) in
      let rest : iter_from (packed gap dead (u ++ x ∷ v)) (length dead + length u + 1) (length v)
          ≡ some v =
        ap (λ i. iter_from (packed gap dead (u ++ x ∷ v)) i (length v)) ahead
        ∙ ap (λ l. iter_from (packed gap dead l) (length dead + length (u ++ x ∷ [])) (length v))
            (sym (append_assoc u (x ∷ []) v))
        ∙ iter_from-packed (u ++ x ∷ []) v in
      rw (at_offset-packed u v x, rest) refl

  -- A chunk's iterator gives its elements in order.
  pub chunk_iter-packed : (items : List Text) → chunk_iter (packed gap dead items) ≡ some items
  unfolding chunk_iter
  chunk_iter-packed items =
      let many : length (dead ++ ends (length gap) items) - 1 - length dead ≡ length items =
        omega
          (arith, length-append dead (ends (length gap) items), length-ends (length gap) items) in
      ap (iter_from (packed gap dead items) (length dead)) many
      ∙ ap (λ i. iter_from (packed gap dead items) i (length items)) (omega arith)
      ∙ iter_from-packed [] items

-- The chunk holds the items, in a buffer that the offsets can measure.
pub record Holds (c : Chunk) (items : List Text) : Type 0 where
  pub gap : List ℕ
  pub dead : List ℕ
  pub shape : c ≡ packed gap dead items
  pub fits : length (gap ++ join items) < 2 ^ 32
