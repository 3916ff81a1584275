-- ===== src/Storage/QuickList/Trimmed.antt =====
-- What a trim leaves of a quick list.
use mathlib.Core.Path.{subst}
use fyro_db.Prelude.{
  take-append_part, take-append_past, drop-append_part, drop-append_past, take-nil, drop-nil,
  take_beyond, split_last, ℕ, zero, suc, ◌+◌, ◌-◌, ◌≤◌, ◌≡◌, refl, sym, ap, ◌∙◌, inl, inr, Option,
  some, List, [], ◌∷◌, ◌++◌, arith, leb, ◌==◌, ◌>>=◌, Bool-cases, length, take, drop, length-append,
  length-drop, length-take,
}
use fyro_db.Cluster.Topology.{Text}
use fyro_db.Storage.Chunk.{Chunk}
use fyro_db.Storage.Chunk.Packed.{Holds}
use fyro_db.Storage.Chunk.Held.{Gives, chunk_len-Holds, drop_front-Holds, drop_back-Holds}
use fyro_db.Storage.QuickList.{QuickList, backwards}
use fyro_db.Storage.QuickList.Ends.{Chunked, Represents}
use fyro_db.Storage.QuickList.Rewrite.{Chunked-append}
use fyro_db.Storage.QuickList.Trim.{drop_fronts, drop_backs, trim_front, trim_back, trim}
use fyro_db.Storage.QuickList.Pieces.{Chunked-cons, Chunked-single, backwards-backwards, last_chunk}

drop_fronts-Holds :
    (n : ℕ) (c : Chunk) (items : List Text)
    → Holds c items
    → n ≤ length items
    → Gives (drop_fronts n c) (λ left. Holds left (drop n items))
unfolding drop_fronts
drop_fronts-Holds zero c items h low = (c, refl, h)
drop_fronts-Holds (suc n) c [] h low = absurd (omega arith)
drop_fronts-Holds (suc n) c (x ∷ items) h low =
    let (one, made, h1) = drop_front-Holds c x items h in
    let (left, rest, hl) = drop_fronts-Holds n one items h1 (omega arith) in
    (left, rw made rest, hl)

drop_backs-Holds :
    (n : ℕ) (c : Chunk) (items : List Text)
    → Holds c items
    → n ≤ length items
    → Gives (drop_backs n c) (λ left. Holds left (take (length items - n) items))
unfolding drop_backs
drop_backs-Holds zero c items h low =
    (c, refl, subst (Holds c) (sym (take_beyond (length items - 0) items (omega arith))) h)
drop_backs-Holds (suc n) c [] h low = absurd (omega arith)
drop_backs-Holds (suc n) c (x ∷ items) h low =
    let (before, back, split) = split_last x items in
    let (one, made, h1) = drop_back-Holds c back before (subst (Holds c) split h) in
    let (left, rest, hl) =
      drop_backs-Holds n one before h1
        (omega (arith, low, ap (length {A = Text}) split, length-append before (back ∷ []))) in
    let size : suc (length items) ≡ length before + 1 =
      ap (length {A = Text}) split ∙ length-append before (back ∷ []) in
    let kept : take (suc (length items) - suc n) (x ∷ items) ≡ take (length before - n) before =
      ap (take (suc (length items) - suc n)) split
      ∙ take-append_part (suc (length items) - suc n) before (back ∷ []) (omega (arith, size))
      ∙ ap (λ k. take k before) (omega (arith, size)) in
    (left, rw made rest, subst (Holds left) (sym kept) hl)

trim_front-Chunked :
    (skip : ℕ) (chunks : List Chunk) (items : List Text) (len : ℕ)
    → Chunked chunks items
    → len ≡ length items
    → Gives
        (trim_front skip chunks len)
        (λ (left, n). Chunked left (drop skip items) × (n ≡ length (drop skip items)))
unfolding trim_front
trim_front-Chunked skip [] items len e count = (
  ([], len),
  refl,
  (
    ap (drop skip) e ∙ drop-nil skip,
    count ∙ ap (length {A = Text}) (e ∙ sym (ap (drop skip) e ∙ drop-nil skip)),
  ),
)
trim_front-Chunked skip (c ∷ chunks) items len (x, xs, rest, h, e, later) count =
    let size = chunk_len-Holds c (x ∷ xs) h in
    let many : length items ≡ suc (length xs) + length rest =
      omega (arith, ap (length {A = Text}) e, length-append xs rest) in
    elim (Bool-cases (skip == 0)) [
      | inl none_left ↦
          let same : drop skip items ≡ items =
            ap (λ n. drop n items) {y = 0} (ground (arith, none_left)) in
          (
            (c ∷ chunks, len),
            rw none_left refl,
            (
              subst (Chunked (c ∷ chunks)) (sym same) (x, xs, rest, h, e, later),
              count ∙ ap (length {A = Text}) (sym same),
            ),
          )
      | inr some_left ↦ elim (Bool-cases (leb (suc (length xs)) skip)) [
        | inl whole ↦
            let step : trim_front skip (c ∷ chunks) len
                ≡ trim_front (skip - suc (length xs)) chunks (len - suc (length xs)) =
              rw (some_left, size, whole) refl in
            let (left, made, hl) =
              trim_front-Chunked (skip - suc (length xs)) chunks rest (len - suc (length xs)) later
                (omega (arith, count, many)) in
            let same : drop skip items ≡ drop (skip - suc (length xs)) rest =
              ap (drop skip) e ∙ drop-append_past skip (x ∷ xs) rest (ground (arith, whole)) in
            (
              left,
              step ∙ made,
              (subst (Chunked left.0) (sym same) hl.0, hl.1 ∙ ap (length {A = Text}) (sym same)),
            )
        | inr part ↦
            let step : trim_front skip (c ∷ chunks) len
                ≡ (drop_fronts skip c >>= λ c. some (c ∷ chunks, len - skip)) =
              rw (some_left, size, part) refl in
            let (left, made, hl) = drop_fronts-Holds skip c (x ∷ xs) h (ground (arith, part)) in
            let same : drop skip items ≡ drop skip (x ∷ xs) ++ rest =
              ap (drop skip) e ∙ drop-append_part skip (x ∷ xs) rest (ground (arith, part)) in
            (
              (left ∷ chunks, len - skip),
              step ∙ ap (λ (o : Option Chunk). o >>= λ c. some (c ∷ chunks, len - skip)) made,
              (
                subst (Chunked (left ∷ chunks)) (sym same) (
                    Chunked-cons left chunks (drop skip (x ∷ xs)) rest hl
                      (ground (arith, part, length-drop skip (x ∷ xs))) later),
                omega (arith, count, length-drop skip items),
              ),
            )
      ]
    ]

trim_back-Chunked :
    (keep : ℕ) (chunks : List Chunk) (items : List Text) (len : ℕ)
    → Chunked (backwards chunks) items
    → len ≡ length items
    → Gives
        (trim_back keep chunks len)
        (λ (left, n). Chunked (backwards left) (take keep items) × (n ≡ length (take keep items)))
unfolding trim_back
trim_back-Chunked keep [] items len e count =
    let nothing : take keep items ≡ [] = ap (take keep) e ∙ take-nil keep in
    (([], len), refl, (nothing, count ∙ ap (length {A = Text}) (e ∙ sym nothing)))
trim_back-Chunked keep (c ∷ chunks) items len h count =
    let (u, x, xs, split, hu, hc) = last_chunk c chunks items h in
    let size = chunk_len-Holds c (x ∷ xs) hc in
    let many : length items ≡ length u + suc (length xs) =
      ap (length {A = Text}) split ∙ length-append u (x ∷ xs) in
    elim (Bool-cases (leb len keep)) [
      | inl enough ↦
          let same : take keep items ≡ items =
            take_beyond keep items (ground (arith, enough, count)) in
          (
            (c ∷ chunks, len),
            rw enough refl,
            (
              subst (Chunked (backwards chunks ++ c ∷ [])) (sym same) h,
              count ∙ ap (length {A = Text}) (sym same),
            ),
          )
      | inr excess ↦ elim (Bool-cases (leb (suc (length xs)) (len - keep))) [
        | inl whole ↦
            let step : trim_back keep (c ∷ chunks) len
                ≡ trim_back keep chunks (len - suc (length xs)) =
              rw (excess, size, whole) refl in
            let (left, made, hl) =
              trim_back-Chunked keep chunks u (len - suc (length xs)) hu
                (omega (arith, count, many)) in
            let same : take keep items ≡ take keep u =
              ap (take keep) split
              ∙ take-append_part keep u (x ∷ xs) (ground (arith, whole, excess, count, many)) in
            (
              left,
              step ∙ made,
              (
                subst (Chunked (backwards left.0)) (sym same) hl.0,
                hl.1 ∙ ap (length {A = Text}) (sym same),
              ),
            )
        | inr part ↦
            let step : trim_back keep (c ∷ chunks) len
                ≡ (drop_backs (len - keep) c >>= λ c. some (c ∷ chunks, len - (len - keep))) =
              rw (excess, size, part) refl in
            let (left, made, hl) =
              drop_backs-Holds (len - keep) c (x ∷ xs) hc (ground (arith, part)) in
            let stay : suc (length xs) - (len - keep) ≡ keep - length u =
              ground (arith, part, excess, count, many) in
            let same : take keep items ≡ u ++ take (suc (length xs) - (len - keep)) (x ∷ xs) =
              ap (take keep) split
              ∙ take-append_past keep u (x ∷ xs) (ground (arith, part, excess, count, many))
              ∙ ap (λ n. u ++ take n (x ∷ xs)) (sym stay) in
            (
              (left ∷ chunks, len - (len - keep)),
              step
                  ∙ ap (λ (o : Option Chunk). o >>= λ c. some (c ∷ chunks, len - (len - keep)))
                      made,
              (
                subst (Chunked (backwards chunks ++ left ∷ [])) (sym same) (
                    Chunked-append (backwards chunks) (left ∷ []) u
                      (take (suc (length xs) - (len - keep)) (x ∷ xs)) hu
                      (Chunked-single left (take (suc (length xs) - (len - keep)) (x ∷ xs)) hl (
                        ground
                          (arith, part, length-take (suc (length xs) - (len - keep)) (x ∷ xs))))),
                ground (arith, excess, count, length-take keep items),
              ),
            )
      ]
    ]

-- A trim leaves at most the given number of elements from the given index on.
pub trim-Represents :
    (start keep : ℕ) (q : QuickList) (items : List Text)
    → Represents q items
    → Gives (trim start keep q) (λ after. Represents after (take keep (drop start items)))
unfolding trim
trim-Represents start keep q items h =
    let (fronts, made, hf) = trim_front-Chunked start q.chunks items q.len h.chunked h.count in
    let reversed : Chunked (backwards (backwards fronts.0)) (drop start items) =
      subst (λ l. Chunked l (drop start items)) (sym (backwards-backwards fronts.0)) hf.0 in
    let (backs, done, hb) =
      trim_back-Chunked keep (backwards fronts.0) (drop start items) fronts.1 reversed hf.1 in
    (
      record { chunks = backwards backs.0; len = backs.1 },
      ap
            (λ (o : Option (List Chunk × ℕ)). o >>= λ p. trim_back keep (backwards p.0) p.1 >>= λ p.
              some (record { chunks = backwards p.0; len = p.1 }))
            made
          ∙ ap
              (λ (o : Option (List Chunk × ℕ)).
                o >>= λ p. some (record { chunks = backwards p.0; len = p.1 }))
              done,
      record { chunked = hb.0; count = hb.1 },
    )
