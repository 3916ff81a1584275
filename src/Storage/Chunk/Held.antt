-- ===== src/Storage/Chunk/Held.antt =====
-- What the operations of a chunk give, for any chunk that holds some elements.
use mathlib.Core.Path.{subst}
use fyro_db.Prelude.{
  ℕ, ◌+◌, ◌-◌, ◌^◌, ◌<◌, ◌≡◌, refl, sym, ap, ◌∙◌, inl, inr, false, ◌||◌, Option, some, List, [],
  ◌∷◌, ◌++◌, arith, ltb, leb, Bool-cases, length, get_elem?, length-append, append-nil,
}
use fyro_db.Cluster.Topology.{Text}
use fyro_db.Storage.Chunk.{
  Chunk, new_chunk, chunk_len, chunk_get, chunk_iter, seal, full_back, full_front, append_to,
  prepend_to, append_all, drop_back, drop_front, chunk_entries, chunk_bytes,
}
use fyro_db.Storage.Chunk.Packed.{
  join, ends, packed, Holds, chunk_len-packed, chunk_get-packed, chunk_iter-packed, join-append,
  offset-packed,
}
use fyro_db.Storage.Chunk.Push.{prepend_to-packed}
use fyro_db.Storage.Chunk.Append.{append_to-packed, append_all-packed, rebuild-packed}
use fyro_db.Storage.Chunk.Pop.{drop_front-packed, drop_back-packed}

-- A result that is not a panic, and what it satisfies.
abbrev pub Gives {ℓ} : {A : Type ℓ} → Option A → (A → Type 0) → Type ℓ
Gives {A} result P = (a : A) × (result ≡ some a) × P a

pub new-Holds : Holds new_chunk []
new-Holds = record { gap = []; dead = []; shape = refl; fits = omega arith }

module _ (c : Chunk) (items : List Text) (h : Holds c items) where
  pub chunk_len-Holds : chunk_len c ≡ length items
  chunk_len-Holds = ap chunk_len h.shape ∙ chunk_len-packed h.gap h.dead items

  pub chunk_iter-Holds : chunk_iter c ≡ some items
  chunk_iter-Holds = ap chunk_iter h.shape ∙ chunk_iter-packed h.gap h.dead items

  pub seal-Holds : Gives (seal c) (λ sealed. Holds sealed items)
  seal-Holds = subst (λ c. Gives (seal c) (λ sealed. Holds sealed items)) (sym h.shape) seal-packed
    where
      small : length (join items) < 2 ^ 32
      small = omega (arith, h.fits, length-append h.gap (join items))

      seal-packed : Gives (seal (packed h.gap h.dead items)) (λ sealed. Holds sealed items)
      seal-packed = elim (Bool-cases (ltb 0 (length h.dead))) [
        | inl some_dead ↦ (
          packed [] [] items,
          unfold seal in
              rw some_dead (rebuild-packed h.gap h.dead 0 0 items (omega (arith, small))),
          record { gap = []; dead = []; shape = refl; fits = small },
        )
        | inr all_live ↦ (
          packed h.gap h.dead items,
          unfold seal in rw all_live refl,
          record { gap = h.gap; dead = h.dead; shape = refl; fits = h.fits },
        )
      ]

  pub append_to-Holds :
      (s : Text)
      → length c.bytes < chunk_bytes
      → length s < 2 ^ 31
      → Holds (append_to s c) (items ++ s ∷ [])
  append_to-Holds s light small =
      let room : length (h.gap ++ join items) + length s < 2 ^ 32 =
        omega (arith, ap (λ (c : Chunk). length c.bytes) h.shape, light, small) in
      record {
        gap = h.gap;
        dead = h.dead;
        shape = ap (append_to s) h.shape ∙ append_to-packed h.gap h.dead items s room;
        fits = omega (
          arith,
          room,
          ap (length {A = ℕ}) (join-append items (s ∷ [])),
          ap (length {A = ℕ}) (append-nil s),
          length-append (join items) (s ++ []),
          length-append h.gap (join items),
          length-append h.gap (join (items ++ s ∷ [])),
        );
      }

  pub full_front-Holds :
      full_front c
      ≡ some (leb chunk_entries (length items) || leb chunk_bytes (length (join items)))
  full_front-Holds = ap full_front h.shape ∙ full_front-packed
    where
      base_lem :
          get_elem? (h.dead ++ ends (length h.gap) items) (length h.dead) ≡ some (length h.gap)
      base_lem =
          ap (get_elem? (h.dead ++ ends (length h.gap) items)) (omega arith)
          ∙ offset-packed h.gap h.dead [] items
          ∙ ap some (ap (length {A = ℕ}) (append-nil h.gap))

      live : length (h.gap ++ join items) - length h.gap ≡ length (join items)
      live = omega (arith, length-append h.gap (join items))

      full_front-packed :
          full_front (packed h.gap h.dead items)
          ≡ some (leb chunk_entries (length items) || leb chunk_bytes (length (join items)))
      full_front-packed =
          unfold full_front in rw (base_lem, chunk_len-packed h.gap h.dead items, live) refl

  pub prepend_to-Holds :
      (s : Text)
      → full_front c ≡ some false
      → length s < 2 ^ 31
      → Gives (prepend_to s c) (λ fuller. Holds fuller (s ∷ items))
  prepend_to-Holds s not_full small =
      subst (λ c. Gives (prepend_to s c) (λ fuller. Holds fuller (s ∷ items))) (sym h.shape)
        (prepend_to-packed h.gap h.dead items s h.fits small
          (ground (arith, full_front-Holds, not_full)))

-- A chunk that is full at neither limit has few bytes.
pub full_back-light : (c : Chunk) → full_back c ≡ false → length c.bytes < chunk_bytes
unfolding full_back
full_back-light c e = ground (arith, e)

pub drop_front-Holds :
    (c : Chunk) (x : Text) (items : List Text)
    → Holds c (x ∷ items)
    → (left : Chunk) × (drop_front c ≡ some (x, left)) × Holds left items
drop_front-Holds c x items h =
    subst (λ c. (left : Chunk) × (drop_front c ≡ some (x, left)) × Holds left items) (sym h.shape)
      (drop_front-packed h.gap h.dead x items h.fits)

pub drop_back-Holds :
    (c : Chunk) (x : Text) (items : List Text)
    → Holds c (items ++ x ∷ [])
    → (left : Chunk) × (drop_back c ≡ some (x, left)) × Holds left items
drop_back-Holds c x items h =
    subst (λ c. (left : Chunk) × (drop_back c ≡ some (x, left)) × Holds left items) (sym h.shape)
      (drop_back-packed h.gap h.dead x items h.fits)

pub chunk_get-Holds :
    (c : Chunk) (u v : List Text) (x : Text)
    → Holds c (u ++ x ∷ v)
    → chunk_get c (length u) ≡ some x
chunk_get-Holds c u v x h =
    ap (λ c. chunk_get c (length u)) h.shape ∙ chunk_get-packed h.gap h.dead u v x

-- A chunk that is built from elements holds them.
pub append_all-Holds :
    (items : List Text) → length (join items) < 2 ^ 32 → Holds (append_all items new_chunk) items
append_all-Holds items small = record {
  gap = [];
  dead = [];
  shape = append_all-packed [] [] [] items small;
  fits = small;
}
