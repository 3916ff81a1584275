-- ===== src/Storage/Chunk/Append.antt =====
-- A push behind the elements of a chunk, and a rebuild.
use mathlib.Core.Path.{subst}
use fyro_db.Prelude.{
  ℕ, ◌+◌, ◌-◌, ◌%◌, ◌^◌, ◌<◌, ◌≡◌, refl, sym, ap, ◌∙◌, some, List, [], ◌∷◌, ◌++◌, arith, length,
  get_elem?, replicate, map, length-append, length-replicate, append-nil, append_assoc,
  drop-append_length,
}
use fyro_db.Cluster.Topology.{Text}
use fyro_db.Storage.Chunk.{slice, rebuild, append_to, append_all}
use fyro_db.Storage.Chunk.Packed.{
  join, ends, packed, join-append, ends-append, offset-packed, slice_mid,
}

module _ (gap dead : List ℕ) where
  pub append_to-packed :
      (items : List Text) (s : Text)
      → length (gap ++ join items) + length s < 2 ^ 32
      → append_to s (packed gap dead items) ≡ packed gap dead (items ++ s ∷ [])
  unfolding append_to
  append_to-packed items s fits =
      λ i. record { bytes = bytes_lem i; offs = offs_lem i; head = length dead }
    where
      bytes_lem : (gap ++ join items) ++ s ≡ gap ++ join (items ++ s ∷ [])
      bytes_lem =
          append_assoc gap (join items) s
          ∙ ap (λ b. gap ++ b)
              (ap (λ b. join items ++ b) (sym (append-nil s)) ∙ sym (join-append items (s ∷ [])))

      offs_lem :
          (dead ++ ends (length gap) items)
            ++ ((length (gap ++ join items) + length s) % 2 ^ 32) ∷ []
          ≡ dead ++ ends (length gap) (items ++ s ∷ [])
      offs_lem =
          append_assoc dead (ends (length gap) items) _
          ∙ ap (λ l. dead ++ l)
              (ap (λ n. ends (length gap) items ++ n ∷ [])
                  (omega (arith, fits, length-append gap (join items)))
                ∙ sym (ends-append (length gap) items s))

  pub append_all-packed :
      (done items : List Text)
      → length (gap ++ join (done ++ items)) < 2 ^ 32
      → append_all items (packed gap dead done) ≡ packed gap dead (done ++ items)
  unfolding append_all
  append_all-packed done [] fits = ap (packed gap dead) (sym (append-nil done))
  append_all-packed done (s ∷ items) fits =
      let part : length (gap ++ join done) + length s < 2 ^ 32 = omega (
        arith,
        fits,
        length-append gap (join done),
        length-append gap (join (done ++ s ∷ items)),
        ap (length {A = ℕ}) (join-append done (s ∷ items)),
        length-append (join done) (s ++ join items),
        length-append s (join items),
      ) in
      let assoc = append_assoc done (s ∷ []) items in
      ap (append_all items) (append_to-packed done s part)
      ∙ append_all-packed (done ++ s ∷ []) items
          (subst (λ l. length (gap ++ join l) < 2 ^ 32) (sym assoc) fits)
      ∙ ap (packed gap dead) assoc

  -- The offsets are moved with the elements.
  moved :
      (base to more : ℕ) (items : List Text)
      → to + more + length (join items) < 2 ^ 32
      → map (λ o. (o - base + to) % 2 ^ 32) (ends (base + more) items) ≡ ends (to + more) items
  moved base to more [] fits = ap (λ n. n ∷ []) (omega (arith, fits))
  moved base to more (s ∷ items) fits =
      let here : (base + more - base + to) % 2 ^ 32 ≡ to + more =
        omega (arith, fits, length-append s (join items)) in
      let from : base + more + length s ≡ base + (more + length s) = omega arith in
      let onto : to + (more + length s) ≡ to + more + length s = omega arith in
      let rest : map (λ o. (o - base + to) % 2 ^ 32) (ends (base + more + length s) items)
          ≡ ends (to + more + length s) items =
        ap (λ b. map (λ o. (o - base + to) % 2 ^ 32) (ends b items)) from
        ∙ moved base to (more + length s) items (omega (arith, fits, length-append s (join items)))
        ∙ ap (λ b. ends b items) onto in
      rw (here, rest) refl

  pub rebuild-packed :
      (slots to : ℕ) (items : List Text)
      → to + length (join items) < 2 ^ 32
      → rebuild slots to (packed gap dead items)
        ≡ some (packed (replicate to 0) (replicate slots to) items)
  unfolding rebuild
  rebuild-packed slots to items fits =
      rw
        (
          first,
          live,
          small,
          drop-append_length,
          shifted,
          length-replicate slots to,
          length-replicate {A = ℕ} to 0,
        )
        refl
    where
      first : get_elem? (dead ++ ends (length gap) items) (length dead) ≡ some (length gap)
      first =
          ap (get_elem? (dead ++ ends (length gap) items)) (omega arith)
          ∙ offset-packed gap dead [] items
          ∙ ap some (ap (length {A = ℕ}) (append-nil gap))

      live : slice (length gap) (length (gap ++ join items)) (gap ++ join items) ≡ some (join items)
      live =
          ap (λ b. slice (length gap) (length (gap ++ join items)) (gap ++ b))
            (sym (append-nil (join items)))
          ∙ slice_mid gap (join items) [] (length gap) (length (gap ++ join items)) refl
              (length-append gap (join items))

      small : to % 2 ^ 32 ≡ to
      small = omega (arith, fits)

      shifted : map (λ o. (o - length gap + to) % 2 ^ 32) (ends (length gap) items) ≡ ends to items
      shifted =
          ap (λ b. map (λ o. (o - length gap + to) % 2 ^ 32) (ends b items)) (omega arith)
          ∙ moved (length gap) to 0 items (omega (arith, fits))
          ∙ ap (λ b. ends b items) (omega arith)
