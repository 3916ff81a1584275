-- ===== src/Storage/Chunk/Push.antt =====
-- Elements put in at the ends of a chunk.
use fyro_db.Prelude.{
  take-append_part, split_last, set-append, ℕ, ◌+◌, ◌-◌, ◌/◌, ◌%◌, ◌^◌, ◌≤◌, ◌<◌, ◌≡◌, refl, ap,
  ◌∙◌, inl, inr, max, true, ◌||◌, some, List, [], ◌∷◌, ◌++◌, arith, ltb, leb, ◌==◌, le→leb,
  if◌then◌else◌, ◌>>=◌, Bool-cases, length, get_elem?, set, take, drop, replicate, length-append,
  length-replicate, append-nil, append_assoc, drop-append_length, length-take,
}
use fyro_db.Cluster.Topology.{Text}
use fyro_db.Storage.Chunk.{Chunk, front_slots, rebuild, with_room, write_front, prepend_to}
use fyro_db.Storage.Chunk.Packed.{join, ends, packed, Holds, offset-packed}
use fyro_db.Storage.Chunk.Append.{rebuild-packed}

-- Room in front of the first element.
record Roomy (items : List Text) (s : Text) (c : Chunk) : Type 0 where
  gap : List ℕ
  slots : List ℕ
  slot : ℕ
  shape : c ≡ packed gap (slots ++ slot ∷ []) items
  room : length s ≤ length gap
  fits : length (gap ++ join items) < 2 ^ 32

module _ (gap dead : List ℕ) (items : List Text) (s : Text)
    (fits : length (gap ++ join items) < 2 ^ 32) where
  first-packed : get_elem? (dead ++ ends (length gap) items) (length dead) ≡ some (length gap)
  first-packed =
      ap (get_elem? (dead ++ ends (length gap) items)) (omega arith)
      ∙ offset-packed gap dead [] items
      ∙ ap some (ap (length {A = ℕ}) (append-nil gap))

  -- With a dead offset and room in the buffer the element is written in front.
  write_front-packed :
      (slots : List ℕ) (slot : ℕ)
      → dead ≡ slots ++ slot ∷ []
      → length s ≤ length gap
      → write_front s (packed gap dead items)
        ≡ some (packed (take (length gap - length s) gap) slots (s ∷ items))
  unfolding write_front
  write_front-packed slots slot e room =
      rw (first-packed, inside, within)
        (λ i. some (record { bytes = bytes_lem i; offs = offs_lem i; head = head_lem i }))
    where
      start : ℕ
      start = length gap - length s

      inside : leb (length s) (length gap) ≡ true
      inside = le→leb (length s) (length gap) room

      within : leb (length gap) (length (gap ++ join items)) ≡ true
      within =
          le→leb (length gap) (length (gap ++ join items))
            (omega (arith, length-append gap (join items)))

      front : length (take start gap) ≡ start
      front = omega (arith, length-take start gap, room)

      bytes_lem :
          take start (gap ++ join items) ++ (s ++ drop (length gap) (gap ++ join items))
          ≡ take start gap ++ (s ++ join items)
      bytes_lem =
          rw (take-append_part start gap (join items) (omega arith), drop-append_length) refl

      head_lem : length dead - 1 ≡ length slots
      head_lem = omega (arith, ap (length {A = ℕ}) e, length-append slots (slot ∷ []))

      offs_lem :
          set (dead ++ ends (length gap) items) (length dead - 1) (start % 2 ^ 32)
          ≡ slots ++ ends (length (take start gap)) (s ∷ items)
      offs_lem =
          ap (λ k. set (dead ++ ends (length gap) items) k (start % 2 ^ 32)) head_lem
          ∙ ap (λ d. set (d ++ ends (length gap) items) (length slots) (start % 2 ^ 32)) e
          ∙ ap (λ l. set l (length slots) (start % 2 ^ 32))
              (append_assoc slots (slot ∷ []) (ends (length gap) items))
          ∙ set-append slots (ends (length gap) items) slot (start % 2 ^ 32)
          ∙ ap (λ n. slots ++ (n ∷ ends (length gap) items))
              (omega (arith, front, fits, length-append gap (join items)))
          ∙ ap (λ n. slots ++ (length (take start gap) ∷ ends n items)) (omega (arith, front, room))

  kept-Roomy : 0 < length dead → length s ≤ length gap → Roomy items s (packed gap dead items)
  kept-Roomy some_dead room = split_dead dead some_dead
    where
      split_dead : (dead : List ℕ) → 0 < length dead → Roomy items s (packed gap dead items)
      split_dead [] h = elim h [ ]
      split_dead (d ∷ dead) h =
          let (slots, slot, e) = split_last d dead in
          record {
            gap = gap;
            slots = slots;
            slot = slot;
            shape = ap (λ l. packed gap l items) e;
            room = room;
            fits = fits;
          }

  with_room-base : with_room s (packed gap dead items) ≡ (
      if length dead == 0 || ltb (length gap) (length s)
      then rebuild front_slots
          (max (max (length s) ((length (gap ++ join items) - length gap) / 2)) 64)
          (packed gap dead items)
      else some (packed gap dead items))
  unfolding with_room
  with_room-base =
      ap
        (λ o. o >>= λ base.
          (if length dead == 0 || ltb base (length s)
            then rebuild front_slots
                (max (max (length s) ((length (gap ++ join items) - base) / 2)) 64)
                (packed gap dead items)
            else some (packed gap dead items)))
        first-packed

  with_room-packed :
      length s < 2 ^ 31
      → length (join items) < 4096
      → (c : Chunk) × (with_room s (packed gap dead items) ≡ some c) × Roomy items s c
  with_room-packed small light =
      elim (Bool-cases (length dead == 0 || ltb (length gap) (length s))) [
        | inl tight ↦ (
          packed (replicate to 0) (replicate front_slots to) items,
          with_room-base
              ∙ rw tight (
                  ap
                    (λ n.
                      rebuild front_slots (max (max (length s) (n / 2)) 64) (packed gap dead items))
                    live
                  ∙ rebuild-packed gap dead front_slots to items (omega arith)),
          record {
            gap = replicate to 0;
            slots = replicate 15 to;
            slot = to;
            shape = refl;
            room = omega (arith, length-replicate {A = ℕ} to 0);
            fits =
                omega (
                  arith,
                  length-append (replicate to 0) (join items),
                  length-replicate {A = ℕ} to 0,
                );
          },
        )
        | inr loose ↦ (
          packed gap dead items,
          with_room-base ∙ rw loose refl,
          kept-Roomy (ground (arith, loose)) (ground (arith, loose)),
        )
      ]
    where
      to : ℕ
      to = max (max (length s) (length (join items) / 2)) 64

      live : length (gap ++ join items) - length gap ≡ length (join items)
      live = omega (arith, length-append gap (join items))

-- A short enough element is put in front of a chunk that is not full.
pub prepend_to-packed :
    (gap dead : List ℕ) (items : List Text) (s : Text)
    → length (gap ++ join items) < 2 ^ 32
    → length s < 2 ^ 31
    → length (join items) < 4096
    → (c : Chunk) × (prepend_to s (packed gap dead items) ≡ some c) × Holds c (s ∷ items)
unfolding prepend_to
prepend_to-packed gap dead items s fits small light =
    let (roomed, made, roomy) = with_room-packed gap dead items s fits small light in
    let start = length roomy.gap - length s in
    let short : length (take start roomy.gap) + length s ≡ length roomy.gap =
      omega (arith, length-take start roomy.gap, roomy.room) in
    (
      packed (take start roomy.gap) roomy.slots (s ∷ items),
      rw made (
          ap (write_front s) roomy.shape
          ∙ write_front-packed roomy.gap (roomy.slots ++ roomy.slot ∷ []) items s roomy.fits
              roomy.slots roomy.slot refl roomy.room),
      record {
        gap = take start roomy.gap;
        dead = roomy.slots;
        shape = refl;
        fits = omega (
          arith,
          short,
          roomy.fits,
          length-append (take start roomy.gap) (s ++ join items),
          length-append s (join items),
          length-append roomy.gap (join items),
        );
      },
    )
