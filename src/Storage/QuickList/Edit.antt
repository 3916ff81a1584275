-- ===== src/Storage/QuickList/Edit.antt =====
-- Assignment and insertion at an index, and the elements of a range.
use mathlib.Core.Path.{subst}
use fyro_db.Prelude.{
  take_beyond, drop_beyond, set_beyond, set-append, ℕ, zero, suc, ◌+◌, ◌^◌, ◌≤◌, ◌<◌, ◌≡◌, refl,
  sym, ap, ◌∙◌, inl, inr, true, false, Option, some, List, [], ◌∷◌, ◌++◌, arith, ltb, leb, ◌==◌,
  ◌>>=◌, Bool-cases, length, set, take, drop, length-append, append-nil, take-append_length,
  drop-append_length,
}
use fyro_db.Cluster.Topology.{Text}
use fyro_db.Storage.Chunk.{chunk_bytes}
use fyro_db.Storage.Chunk.Packed.{join}
use fyro_db.Storage.Chunk.Held.{Gives, chunk_iter-Holds}
use fyro_db.Storage.QuickList.{QuickList, rewrite_chunk, assign, insert_at}
use fyro_db.Storage.QuickList.Ends.{Represents}
use fyro_db.Storage.QuickList.Grow.{push_back-Represents, push_front-Represents}
use fyro_db.Storage.QuickList.Locate.{locate-Finds, locate_beyond}
use fyro_db.Storage.QuickList.Rewrite.{rewrite_chunk-Represents}
use fyro_db.Storage.QuickList.Patch.{
  length-join_part, set_at, assign_step, insert_step, length-join_with, inserted_at,
}

-- An assignment in range replaces the element there, and one out of range changes nothing, if the
-- value has at most 4096 bytes and all elements together less than 2^32.
pub assign-Represents :
    (idx : ℕ) (value : Text) (q : QuickList) (items : List Text)
    → Represents q items
    → length value ≤ chunk_bytes
    → length (join (set items idx value)) < 2 ^ 32
    → Gives
        (assign idx value q)
        (λ (hit, after). (hit ≡ ltb idx (length items)) × Represents after (set items idx value))
assign-Represents idx value q items h short small = elim (Bool-cases (ltb idx (length items))) [
  | inl low ↦
      let (ci, j, found, p) = locate-Finds idx q items h (ground (arith, low)) in
      let held = chunk_iter-Holds p.chunk (p.left ++ p.here ∷ p.right) p.holds in
      let fresh = p.left ++ value ∷ p.right in
      let placed : set (p.left ++ p.here ∷ p.right) j value ≡ fresh =
        ap (λ n. set (p.left ++ p.here ∷ p.right) n value) (sym p.index)
        ∙ set-append p.left p.right p.here value in
      let whole : set items idx value ≡ p.before ++ (fresh ++ p.behind) =
        ap (λ l. set l idx value) p.content
        ∙ ap (λ n. set (p.before ++ ((p.left ++ p.here ∷ p.right) ++ p.behind)) n value) p.place
        ∙ set_at p.before p.left p.right p.behind p.here value in
      let within : ltb j (length (p.left ++ p.here ∷ p.right)) ≡ true =
        ground (arith, p.index, length-append p.left (p.here ∷ p.right)) in
      let part : length (join fresh) < 2 ^ 32 =
        omega (
          arith,
          small,
          ap (λ l. length (join l)) whole,
          length-join_part p.before fresh p.behind,
        ) in
      let (after, made, hr) =
        rewrite_chunk-Represents q items idx ci j h p fresh part (alone p.left p.right) in
      (
        (true, after),
        assign_step idx ci j value q p.chunk (p.left ++ p.here ∷ p.right) found p.at held within
            ∙ ap (λ l. rewrite_chunk ci l q >>= λ after. some (true, after)) placed
            ∙ ap (λ (o : Option QuickList). o >>= λ after. some (true, after)) made,
        (sym low, subst (Represents after) (sym whole) hr),
      )
  | inr high ↦ (
    (false, q),
    unfold assign in rw (locate_beyond idx q items h (ground (arith, high)), assign) refl,
    (sym high, subst (Represents q) (sym (set_beyond items idx value (ground (arith, high)))) h),
  )
]
  where
    alone :
        (left right : List Text)
        → length (left ++ value ∷ right) ≡ 1
        → length (join (left ++ value ∷ right)) ≤ chunk_bytes
    alone [] [] one = omega (arith, short, ap (length {A = ℕ}) (append-nil value))
    alone [] (x ∷ right) one = absurd (omega arith)
    alone (x ∷ left) right one = absurd (omega (arith, one, length-append left (value ∷ right)))

-- An insertion puts the value before the element at the index, or behind all if the index is out
-- of range, if the value has less than 2^31 bytes and all elements together less than 2^32.
pub insert_at-Represents :
    (idx : ℕ) (value : Text) (q : QuickList) (items : List Text)
    → Represents q items
    → length value < 2 ^ 31
    → length (join items) + length value < 2 ^ 32
    → Gives
        (insert_at idx value q)
        (λ after. Represents after (take idx items ++ value ∷ drop idx items))
insert_at-Represents zero value q items h short small =
    unfold insert_at in push_front-Represents q items value short h
insert_at-Represents (suc i) value q items h short small = elim (Bool-cases (leb q.len (suc i))) [
  | inl beyond ↦
      let (after, made, hr) = push_back-Represents q items value short h in
      let all_before : length items ≤ suc i = ground (arith, beyond, h.count) in
      (
        after,
        (let inner : (suc i == 0) ≡ false = ground arith in
            unfold insert_at in rw (inner, beyond) made),
        subst (Represents after)
            (ap (λ l. l ++ value ∷ []) (sym (take_beyond (suc i) items all_before))
              ∙ ap (λ l. take (suc i) items ++ value ∷ l)
                  (sym (drop_beyond (suc i) items all_before)))
            hr,
      )
  | inr within ↦
      let (ci, j, found, p) = locate-Finds (suc i) q items h (ground (arith, within, h.count)) in
      let held = chunk_iter-Holds p.chunk (p.left ++ p.here ∷ p.right) p.holds in
      let fresh = p.left ++ value ∷ p.here ∷ p.right in
      let placed : take j (p.left ++ p.here ∷ p.right)
            ++ value ∷ drop j (p.left ++ p.here ∷ p.right)
          ≡ fresh =
        ap (λ n. take n (p.left ++ p.here ∷ p.right) ++ value ∷ drop n (p.left ++ p.here ∷ p.right))
          (sym p.index)
        ∙ ap (λ l. l ++ value ∷ drop (length p.left) (p.left ++ p.here ∷ p.right))
            (take-append_length p.left (p.here ∷ p.right))
        ∙ ap (λ l. p.left ++ value ∷ l) (drop-append_length p.left (p.here ∷ p.right)) in
      let part : length (join fresh) < 2 ^ 32 = omega (
        arith,
        small,
        length-join_with p.left (p.here ∷ p.right) value,
        ap (λ l. length (join l)) p.content,
        length-join_part p.before (p.left ++ p.here ∷ p.right) p.behind,
      ) in
      let (after, made, hr) =
        rewrite_chunk-Represents q items (suc i) ci j h p fresh part
          (λ one. absurd (omega (arith, one, length-append p.left (value ∷ p.here ∷ p.right)))) in
      let inside : leb j (length (p.left ++ p.here ∷ p.right)) ≡ true =
        ground (arith, p.index, length-append p.left (p.here ∷ p.right)) in
      (
        after,
        insert_step (suc i) ci j value q p.chunk (p.left ++ p.here ∷ p.right) found p.at held
              (ground arith) within inside
            ∙ ap (λ l. rewrite_chunk ci l q) placed
            ∙ made,
        subst (Represents after)
            (inserted_at items p.before p.left p.behind p.right p.here value (suc i) p.content
              p.place)
            hr,
      )
]
