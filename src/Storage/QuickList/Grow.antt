-- ===== src/Storage/QuickList/Grow.antt =====
-- A push at either end of a quick list puts the element at that end of what it holds.
use fyro_db.Prelude.{
  ◌+◌, ◌^◌, ◌<◌, ◌≡◌, refl, sym, ap, ◌∙◌, inl, inr, ◌||◌, some, List, [], ◌∷◌, ◌++◌, arith, leb,
  Bool-cases, length, length-append, append-nil, append_assoc,
}
use fyro_db.Cluster.Topology.{Text}
use fyro_db.Storage.Chunk.{Chunk, new_chunk, full_back, append_to, chunk_entries, chunk_bytes}
use fyro_db.Storage.Chunk.Packed.{join, Holds}
use fyro_db.Storage.Chunk.Held.{
  Gives, new-Holds, seal-Holds, append_to-Holds, full_front-Holds, prepend_to-Holds,
  full_back-light,
}
use fyro_db.Storage.QuickList.{QuickList, push_last, push_back, push_first, push_front}
use fyro_db.Storage.QuickList.Ends.{Chunked, Represents}
use fyro_db.Storage.QuickList.Shrink.{last}

alone-Chunked :
    (c : Chunk) (x : Text) (xs : List Text) → Holds c (x ∷ xs) → Chunked (c ∷ []) (x ∷ xs)
alone-Chunked c x xs h = (x, xs, [], h, ap (λ l. x ∷ l) (sym (append-nil xs)), refl)

fresh-Chunked : (s : Text) → length s < 2 ^ 31 → Chunked (append_to s new_chunk ∷ []) (s ∷ [])
fresh-Chunked s small =
    alone-Chunked (append_to s new_chunk) s []
      (append_to-Holds new_chunk [] new-Holds s (omega arith) small)

push_last-Chunked :
    (s : Text) (chunks : List Chunk) (items : List Text)
    → length s < 2 ^ 31
    → Chunked chunks items
    → Gives (push_last s chunks) (λ more. Chunked more (items ++ s ∷ []))
unfolding push_last
push_last-Chunked s [] items small e =
    (append_to s new_chunk ∷ [], refl, rw e (fresh-Chunked s small))
push_last-Chunked s (c ∷ []) items small (x, xs, rest, h, e, last) =
    elim (Bool-cases (full_back c)) [
      | inl full ↦
          let (sealed, made, hs) = seal-Holds c (x ∷ xs) h in
          (
            sealed ∷ append_to s new_chunk ∷ [],
            rw (full, made) refl,
            (x, xs, s ∷ [], hs, added, fresh-Chunked s small),
          )
      | inr open_end ↦ (
        append_to s c ∷ [],
        rw open_end refl,
        (
          x,
          xs ++ s ∷ [],
          [],
          append_to-Holds c (x ∷ xs) h s (full_back-light c open_end) small,
          added ∙ ap (λ l. x ∷ l) (sym (append-nil (xs ++ s ∷ []))),
          refl,
        ),
      )
    ]
  where
    added : items ++ s ∷ [] ≡ x ∷ (xs ++ s ∷ [])
    added =
        ap (λ l. l ++ s ∷ []) e
        ∙ ap (λ r. x ∷ ((xs ++ r) ++ s ∷ [])) last
        ∙ ap (λ l. x ∷ (l ++ s ∷ [])) (append-nil xs)
push_last-Chunked s (c ∷ next ∷ chunks) items small (x, xs, rest, h, e, later) =
    let (more, made, hm) = push_last-Chunked s (next ∷ chunks) rest small later in
    (
      c ∷ more,
      rw made refl,
      (
        x,
        xs,
        rest ++ s ∷ [],
        h,
        ap (λ l. l ++ s ∷ []) e ∙ ap (λ l. x ∷ l) (append_assoc xs rest (s ∷ [])),
        hm,
      ),
    )

-- After a push at the back the list holds the elements with the new one behind them, if it has less
-- than 2^31 bytes.
pub push_back-Represents :
    (q : QuickList) (items : List Text) (s : Text)
    → length s < 2 ^ 31
    → Represents q items
    → Gives (push_back s q) (λ more. Represents more (items ++ s ∷ []))
unfolding push_back
push_back-Represents q items s small h =
    let (chunks, made, hc) = push_last-Chunked s q.chunks items small h.chunked in
    (
      record { chunks = chunks; len = q.len + 1 },
      rw made refl,
      record { chunked = hc; count = omega (arith, h.count, length-append items (s ∷ [])) },
    )

push_first-Chunked :
    (s : Text) (chunks : List Chunk) (items : List Text)
    → length s < 2 ^ 31
    → Chunked chunks items
    → Gives (push_first s chunks) (λ more. Chunked more (s ∷ items))
unfolding push_first
push_first-Chunked s [] items small e =
    let (fresh, made, hf) = prepend_to-Holds new_chunk [] new-Holds s refl small in
    (fresh ∷ [], rw made refl, rw e (alone-Chunked fresh s [] hf))
push_first-Chunked s (c ∷ chunks) items small (x, xs, rest, h, e, later) =
    elim (Bool-cases
      (leb chunk_entries (length (x ∷ xs)) || leb chunk_bytes (length (join (x ∷ xs))))) [
        | inl full ↦
            let (sealed, closed, hs) = seal-Holds c (x ∷ xs) h in
            let (fresh, made, hf) = prepend_to-Holds new_chunk [] new-Holds s refl small in
            (
              fresh ∷ sealed ∷ chunks,
              rw (full_front-Holds c (x ∷ xs) h, full, closed, made) refl,
              (s, [], items, hf, refl, (x, xs, rest, hs, e, later)),
            )
        | inr free ↦
            let (fuller, made, hf) =
              prepend_to-Holds c (x ∷ xs) h s (full_front-Holds c (x ∷ xs) h ∙ ap some free)
                small in
            (
              fuller ∷ chunks,
              rw (full_front-Holds c (x ∷ xs) h, free, made) refl,
              (s, x ∷ xs, rest, hf, ap (λ l. s ∷ l) e, later),
            )
      ]

-- After a push at the front the list holds the new element before the others, if it has less than
-- 2^31 bytes.
pub push_front-Represents :
    (q : QuickList) (items : List Text) (s : Text)
    → length s < 2 ^ 31
    → Represents q items
    → Gives (push_front s q) (λ more. Represents more (s ∷ items))
unfolding push_front
push_front-Represents q items s small h =
    let (chunks, made, hc) = push_first-Chunked s q.chunks items small h.chunked in
    (
      record { chunks = chunks; len = q.len + 1 },
      rw made refl,
      record { chunked = hc; count = omega (arith, h.count) },
    )
