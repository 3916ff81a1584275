-- ===== src/Storage/Chunk/Pop.antt =====
-- Elements taken off the ends of a chunk.
use fyro_db.Prelude.{
  ℕ, ◌+◌, ◌-◌, ◌^◌, ◌<◌, ◌≡◌, refl, sym, ap, ◌∙◌, false, some, List, [], ◌∷◌, ◌++◌, arith, ltb,
  length, get_elem?, take, length-append, append-nil, append_assoc, take-append_length,
}
use fyro_db.Cluster.Topology.{Text}
use fyro_db.Storage.Chunk.{Chunk, new_chunk, slice, reset_if_empty, drop_back, drop_front}
use fyro_db.Storage.Chunk.Packed.{
  join, ends, packed, Holds, join-append, ends-append, length-ends, offset-packed, chunk_len-packed,
  chunk_get-packed, slice_mid,
}

-- A chunk that became empty is reset.
abbrev pub settled : List ℕ → List ℕ → List Text → Chunk
settled gap dead [] = new_chunk
settled gap dead (x ∷ items) = packed gap dead (x ∷ items)

reset_if_empty-packed :
    (gap dead : List ℕ) (items : List Text)
    → reset_if_empty (packed gap dead items) ≡ settled gap dead items
unfolding reset_if_empty
reset_if_empty-packed gap dead [] = rw (chunk_len-packed gap dead []) refl
reset_if_empty-packed gap dead (x ∷ items) =
    rw (chunk_len-packed gap dead (x ∷ items)) (ground arith)

settled-Holds :
    (gap dead : List ℕ) (items : List Text)
    → length (gap ++ join items) < 2 ^ 32
    → Holds (settled gap dead items) items
settled-Holds gap dead [] fits = record { gap = []; dead = []; shape = refl; fits = omega arith }
settled-Holds gap dead (x ∷ items) fits = record {
  gap = gap;
  dead = dead;
  shape = refl;
  fits = fits;
}

module _ (gap dead : List ℕ) (x : Text) (items : List Text) where
  front-packed :
      record {
        bytes = gap ++ (x ++ join items);
        offs = dead ++ (length gap ∷ ends (length gap + length x) items);
        head = length dead + 1;
      }
      ≡ packed (gap ++ x) (dead ++ length gap ∷ []) items
  front-packed = λ i. record {
    bytes = (sym (append_assoc gap x (join items))) i;
    offs = offs_lem i;
    head = head_lem i;
  }
    where
      head_lem : length dead + 1 ≡ length (dead ++ length gap ∷ [])
      head_lem = omega (arith, length-append dead (length gap ∷ []))

      offs_lem :
          dead ++ (length gap ∷ ends (length gap + length x) items)
          ≡ (dead ++ length gap ∷ []) ++ ends (length (gap ++ x)) items
      offs_lem =
          sym (append_assoc dead (length gap ∷ []) (ends (length gap + length x) items))
          ∙ ap (λ n. (dead ++ length gap ∷ []) ++ ends n items) (sym (length-append gap x))

  pub drop_front-packed :
      length (gap ++ join (x ∷ items)) < 2 ^ 32
      → (c : Chunk) × (drop_front (packed gap dead (x ∷ items)) ≡ some (x, c)) × Holds c items
  unfolding drop_front
  drop_front-packed fits = (
    settled (gap ++ x) (dead ++ length gap ∷ []) items,
    rw (chunk_get-packed gap dead [] items x) (
        ap (λ c. some (x, reset_if_empty c)) front-packed
        ∙ ap (λ c. some (x, c)) (reset_if_empty-packed (gap ++ x) (dead ++ length gap ∷ []) items)),
    settled-Holds (gap ++ x) (dead ++ length gap ∷ []) items
        (omega (arith, fits, ap (length {A = ℕ}) (append_assoc gap x (join items)))),
  )

  pub drop_back-packed :
      length (gap ++ join (items ++ x ∷ [])) < 2 ^ 32
      → (c : Chunk) × (drop_back (packed gap dead (items ++ x ∷ [])) ≡ some (x, c)) × Holds c items
  unfolding drop_back
  drop_back-packed fits = (
    settled gap dead items,
    rw (longer, start_lem, last_lem)
        (ap (λ c. some (x, reset_if_empty c)) rest_lem
          ∙ ap (λ c. some (x, c)) (reset_if_empty-packed gap dead items)),
    settled-Holds gap dead items (
        omega
          (arith, fits, ap (length {A = ℕ}) buffer, length-append (gap ++ join items) (x ++ []))),
  )
    where
      held : Chunk
      held = packed gap dead (items ++ x ∷ [])

      buffer : held.bytes ≡ (gap ++ join items) ++ (x ++ [])
      buffer =
          ap (λ b. gap ++ b) (join-append items (x ∷ []))
          ∙ sym (append_assoc gap (join items) (x ++ []))

      offsets :
          held.offs
          ≡ (dead ++ ends (length gap) items) ++ (length gap + length (join items) + length x) ∷ []
      offsets =
          ap (λ l. dead ++ l) (ends-append (length gap) items x)
          ∙ sym (append_assoc dead (ends (length gap) items) _)

      many : length held.offs ≡ length (dead ++ ends (length gap) items) + 1
      many = ap (length {A = ℕ}) offsets ∙ length-append (dead ++ ends (length gap) items) (_ ∷ [])

      kept : length (dead ++ ends (length gap) items) ≡ length dead + length items + 1
      kept =
          omega
            (arith, length-append dead (ends (length gap) items), length-ends (length gap) items)

      longer : ltb (length held.offs) 2 ≡ false
      longer = ground (arith, many, kept)

      start_lem : get_elem? held.offs (length held.offs - 2) ≡ some (length (gap ++ join items))
      start_lem =
          ap (get_elem? held.offs) (omega (arith, many, kept))
          ∙ offset-packed gap dead items (x ∷ [])

      last_lem : slice (length (gap ++ join items)) (length held.bytes) held.bytes ≡ some x
      last_lem =
          ap (λ b. slice (length (gap ++ join items)) (length b) b) buffer
          ∙ slice_mid (gap ++ join items) x [] (length (gap ++ join items)) _ refl (
              omega (
                arith,
                length-append (gap ++ join items) (x ++ []),
                ap (length {A = ℕ}) (append-nil x),
              ))

      rest_lem :
          record {
            bytes = take (length (gap ++ join items)) held.bytes;
            offs = take (length held.offs - 1) held.offs;
            head = length dead;
          }
          ≡ packed gap dead items
      rest_lem = λ i. record { bytes = bytes_lem i; offs = offs_lem i; head = length dead }
        where
          bytes_lem : take (length (gap ++ join items)) held.bytes ≡ gap ++ join items
          bytes_lem =
              ap (take (length (gap ++ join items))) buffer
              ∙ take-append_length (gap ++ join items) (x ++ [])

          offs_lem : take (length held.offs - 1) held.offs ≡ dead ++ ends (length gap) items
          offs_lem =
              ap (λ n. take n held.offs) (omega (arith, many))
              ∙ ap (take (length (dead ++ ends (length gap) items))) offsets
              ∙ take-append_length (dead ++ ends (length gap) items) _
