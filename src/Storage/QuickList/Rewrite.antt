-- ===== src/Storage/QuickList/Rewrite.antt =====
-- A chunk rewritten with other elements.
use mathlib.Core.Path.{subst}
use fyro_db.Prelude.{
  ℕ, suc, ◌+◌, ◌-◌, ◌/◌, ◌^◌, ◌≤◌, ◌<◌, ◌≡◌, refl, sym, ap, ◌∙◌, inl, inr, false, ◌&&◌, List, [],
  ◌∷◌, ◌++◌, arith, leb, ◌==◌, Bool-cases, length, take, drop, length-append, length-take,
  length-drop, append-nil, append_assoc, take-append-drop,
}
use fyro_db.Cluster.Topology.{Text}
use fyro_db.Storage.Chunk.{Chunk, new_chunk, chunk_len, append_all, chunk_entries, chunk_bytes}
use fyro_db.Storage.Chunk.Packed.{join, join-append}
use fyro_db.Storage.Chunk.Held.{Gives, chunk_len-Holds, append_all-Holds}
use fyro_db.Storage.QuickList.{QuickList, total_bytes, rewrite_chunk}
use fyro_db.Storage.QuickList.Ends.{Chunked, Represents}
use fyro_db.Storage.QuickList.Walk.{Place}

pub Chunked-append :
    (ahead chunks : List Chunk) (before items : List Text)
    → Chunked ahead before
    → Chunked chunks items
    → Chunked (ahead ++ chunks) (before ++ items)
Chunked-append [] chunks before items e h = subst (λ b. Chunked chunks (b ++ items)) (sym e) h
Chunked-append (c ∷ ahead) chunks before items (x, xs, rest, hc, e, later) h = (
  x,
  xs,
  rest ++ items,
  hc,
  ap (λ b. b ++ items) e ∙ ap (λ l. x ∷ l) (append_assoc xs rest items),
  Chunked-append ahead chunks rest items later h,
)

pub total_bytes-join : (items : List Text) → total_bytes items ≡ length (join items)
total_bytes-join [] = refl
total_bytes-join (s ∷ items) = omega (arith, total_bytes-join items, length-append s (join items))

built-Chunked :
    (items : List Text)
    → 0 < length items
    → length (join items) < 2 ^ 32
    → Chunked (append_all items new_chunk ∷ []) items
built-Chunked [] some_item small = elim some_item [ ]
built-Chunked (x ∷ xs) some_item small =
    (x, xs, [], append_all-Holds (x ∷ xs) small, ap (λ l. x ∷ l) (sym (append-nil xs)), refl)

-- Elements in two chunks.
abbrev halves : List Text → List Chunk
halves items =
    append_all (take (length items / 2) items) new_chunk
    ∷ append_all (drop (length items / 2) items) new_chunk
    ∷ []

halves-Chunked :
    (items : List Text)
    → 1 < length items
    → length (join items) < 2 ^ 32
    → Chunked (halves items) items
halves-Chunked items more small =
    let mid = length items / 2 in
    let whole = take-append-drop mid items in
    let bytes : length (join items)
        ≡ length (join (take mid items)) + length (join (drop mid items)) =
      ap (λ l. length (join l)) (sym whole)
      ∙ ap (length {A = ℕ}) (join-append (take mid items) (drop mid items))
      ∙ length-append (join (take mid items)) (join (drop mid items)) in
    subst (Chunked (halves items)) whole (
      Chunked-append (append_all (take mid items) new_chunk ∷ [])
        (append_all (drop mid items) new_chunk ∷ []) (take mid items) (drop mid items)
        (built-Chunked (take mid items) (omega (arith, more, length-take mid items))
          (omega (arith, bytes, small)))
        (built-Chunked (drop mid items) (omega (arith, more, length-drop mid items))
          (omega (arith, bytes, small))))

empty_list : (items : List Text) → length items ≡ 0 → items ≡ []
empty_list [] e = refl
empty_list (x ∷ items) e = absurd (omega (arith, e))

module _ (q : QuickList) (items : List Text) (idx ci j : ℕ) (h : Represents q items)
    (p : Place q.chunks items idx ci j) where
  -- The elements of the chunk that are at the place.
  abbrev pub held : List Text
  held = p.left ++ p.here ∷ p.right

  rewritten-Represents :
      (fresh : List Text) (chunks : List Chunk)
      → Chunked chunks fresh
      → Represents
          (record {
            chunks = take ci q.chunks ++ (chunks ++ drop (suc ci) q.chunks);
            len = q.len - chunk_len p.chunk + length fresh;
          })
          (p.before ++ (fresh ++ p.behind))
  rewritten-Represents fresh chunks hc = record {
    chunked =
        Chunked-append (take ci q.chunks) (chunks ++ drop (suc ci) q.chunks) p.before
          (fresh ++ p.behind) p.ahead
          (Chunked-append chunks (drop (suc ci) q.chunks) fresh p.behind hc p.after);
    count = omega (
      arith,
      h.count,
      chunk_len-Holds p.chunk held p.holds,
      ap (length {A = Text}) p.content,
      length-append p.before (held ++ p.behind),
      length-append held p.behind,
      length-append p.before (fresh ++ p.behind),
      length-append fresh p.behind,
    );
  }

  -- The chunk at a place is rewritten with other elements, unless they are one that is too long.
  pub rewrite_chunk-Represents :
      (fresh : List Text)
      → length (join fresh) < 2 ^ 32
      → (length fresh ≡ 1 → length (join fresh) ≤ chunk_bytes)
      → Gives
          (rewrite_chunk ci fresh q)
          (λ after. Represents after (p.before ++ (fresh ++ p.behind)))
  unfolding rewrite_chunk
  rewrite_chunk-Represents fresh small alone =
      let next : ci + 1 ≡ suc ci = omega arith in
      elim (Bool-cases (length fresh == 0)) [
        | inl nothing ↦ (
          record {
            chunks = take ci q.chunks ++ drop (suc ci) q.chunks;
            len = q.len - chunk_len p.chunk + length fresh;
          },
          rw (p.at, nothing, next) refl,
          rewritten-Represents fresh [] (empty_list fresh (ground (arith, nothing))),
        )
        | inr something ↦
            elim (Bool-cases
              (leb (length fresh) chunk_entries && leb (total_bytes fresh) chunk_bytes)) [
                | inl fits ↦ (
                  record {
                    chunks =
                        take ci q.chunks ++ append_all fresh new_chunk ∷ drop (suc ci) q.chunks;
                    len = q.len - chunk_len p.chunk + length fresh;
                  },
                  rw (p.at, something, fits, next) refl,
                  rewritten-Represents fresh (append_all fresh new_chunk ∷ [])
                      (built-Chunked fresh (ground (arith, something)) small),
                )
                | inr over ↦ (
                  record {
                    chunks = take ci q.chunks ++ (halves fresh ++ drop (suc ci) q.chunks);
                    len = q.len - chunk_len p.chunk + length fresh;
                  },
                  rw (p.at, something, over, next) refl,
                  rewritten-Represents fresh (halves fresh)
                      (halves-Chunked fresh (two over (ground (arith, something))) small),
                )
              ]
      ]
    where
      two :
          leb (length fresh) chunk_entries && leb (total_bytes fresh) chunk_bytes ≡ false
          → 0 < length fresh
          → 1 < length fresh
      two over something = elim (Bool-cases (length fresh == 1)) [
        | inl single ↦
            absurd
              (ground (arith, over, alone (ground (arith, single)), total_bytes-join fresh, single))
        | inr several ↦ ground (arith, several, something)
      ]
