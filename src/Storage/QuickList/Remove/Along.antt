-- ===== src/Storage/QuickList/Remove/Along.antt =====
-- The chunks of a quick list that are left when elements were removed from either end.
use mathlib.Core.Path.{subst}
use fyro_db.Prelude.{
  ℕ, zero, suc, ◌+◌, ◌-◌, ◌^◌, ◌<◌, ◌≡◌, refl, sym, ap, ◌∙◌, inl, inr, Bool, false, Option, some,
  List, [], ◌∷◌, ◌++◌, arith, ◌==◌, if◌then◌else◌, ◌>>=◌, Bool-cases, length, length-append, any,
  bytes_eq,
}
use fyro_db.Cluster.Topology.{Text}
use fyro_db.Storage.Chunk.{Chunk, new_chunk, append_all}
use fyro_db.Storage.Chunk.Packed.{join, Holds}
use fyro_db.Storage.Chunk.Held.{Gives, chunk_iter-Holds, append_all-Holds}
use fyro_db.Storage.QuickList.{total_bytes}
use fyro_db.Storage.QuickList.Rewrite.{total_bytes-join}
use fyro_db.Storage.QuickList.Remove.{flip, remove_some, replace_chunk, remove_chunks}
use fyro_db.Storage.QuickList.Remove.Elements.{
  remove_some-append, any-flip, remove_some-absent, total_bytes-remove_some, total_bytes-flip,
  flip-flip,
}

-- The chunks hold the items in the order in which they are gone through.
abbrev pub Along : Bool → List Chunk → List Text → Type 0
Along from_back [] items = items ≡ []
Along from_back (c ∷ chunks) items =
    (x : Text) × (xs : List Text) × (rest : List Text) × Holds c (flip from_back (x ∷ xs))
    × (items ≡ x ∷ (xs ++ rest))
    × Along from_back chunks rest

-- A chunk that was gone through, before the ones behind it.
replace_chunk-Along :
    (from_back : Bool) (value : Text) (limit : ℕ) (c : Chunk) (x : Text) (xs left : List Text)
    (removed : ℕ) (chunks : List Chunk) (rest : List Text)
    → Holds c (flip from_back (x ∷ xs))
    → remove_some value limit (x ∷ xs) ≡ (left, removed)
    → Along from_back chunks rest
    → Along from_back
        (replace_chunk from_back value c (flip from_back (x ∷ xs)) left chunks)
        (left ++ rest)
unfolding replace_chunk
replace_chunk-Along from_back value limit c x xs left removed chunks rest h taken later =
    elim (Bool-cases (any (λ s. bytes_eq s value) (x ∷ xs))) [
      | inr absent ↦
          let same : left ≡ x ∷ xs =
            ap (λ (p : List Text × ℕ). p.0)
              (sym taken ∙ remove_some-absent value limit (x ∷ xs) absent) in
          rw (any-flip value from_back (x ∷ xs) ∙ absent)
            (x, xs, rest, h, ap (λ l. l ++ rest) same, later)
      | inl present ↦ rw (any-flip value from_back (x ∷ xs) ∙ present) (fresh left bytes)
    ]
  where
    bytes : total_bytes left < 2 ^ 32
    bytes = omega (
      arith,
      ap (λ (p : List Text × ℕ). total_bytes p.0) taken,
      total_bytes-remove_some value limit (x ∷ xs),
      total_bytes-flip from_back (x ∷ xs),
      total_bytes-join (flip from_back (x ∷ xs)),
      h.fits,
      length-append h.gap (join (flip from_back (x ∷ xs))),
    )

    fresh :
        (left : List Text)
        → total_bytes left < 2 ^ 32
        → Along from_back
            (if length left == 0
              then chunks
              else append_all (flip from_back left) new_chunk ∷ chunks)
            (left ++ rest)
    fresh [] bytes = later
    fresh (y ∷ left) bytes =
        let some_left : (suc (length left) == 0) ≡ false = ground arith in
        rw some_left (
          y,
          left,
          rest,
          append_all-Holds (flip from_back (y ∷ left)) (
              omega (
                arith,
                total_bytes-join (flip from_back (y ∷ left)),
                total_bytes-flip from_back (y ∷ left),
                bytes,
              )),
          refl,
          later,
        )

-- The chunks that are left, and the number of elements that were removed.
pub remove_chunks-Along :
    (from_back : Bool) (value : Text) (limit : ℕ) (chunks : List Chunk) (items : List Text)
    → Along from_back chunks items
    → Gives (remove_chunks from_back value limit chunks) (λ (left, removed).
      Along from_back left (remove_some value limit items).0
      × (removed ≡ (remove_some value limit items).1))
unfolding remove_chunks
remove_chunks-Along from_back value zero chunks items h =
    ((chunks, 0), refl, (unfold remove_some in (h, refl)))
remove_chunks-Along from_back value (suc limit) [] items e =
    (([], 0), refl, unfold remove_some in rw e (refl, refl))
remove_chunks-Along from_back value (suc limit) (c ∷ chunks) items (x, xs, rest, h, e, later) =
    let walked : flip from_back (flip from_back (x ∷ xs)) ≡ x ∷ xs = flip-flip from_back (x ∷ xs) in
    let this = remove_some value (suc limit) (x ∷ xs) in
    let that = remove_some value (suc limit - this.1) rest in
    let whole : remove_some value (suc limit) items ≡ (this.0 ++ that.0, this.1 + that.1) =
      ap (remove_some value (suc limit)) e ∙ remove_some-append value (suc limit) (x ∷ xs) rest in
    let (after, made, (ha, count)) =
      remove_chunks-Along from_back value (suc limit - this.1) chunks rest later in
    let put =
      λ (l : List Chunk). replace_chunk from_back value c (flip from_back (x ∷ xs)) this.0 l in
    let finish : List Text × ℕ → List Chunk × ℕ → List Chunk × ℕ =
      λ p q. (replace_chunk from_back value c (flip from_back (x ∷ xs)) p.0 q.0, p.1 + q.1) in
    let step : remove_chunks from_back value (suc limit) (c ∷ chunks)
        ≡ some (put after.0, this.1 + after.1) =
      ap
        (λ (o : Option (List Text)). o >>= λ items.
          let p = remove_some value (suc limit) (flip from_back items) in
          remove_chunks from_back value (suc limit - p.1) chunks >>= λ q.
          some (replace_chunk from_back value c items p.0 q.0, p.1 + q.1))
        (chunk_iter-Holds c (flip from_back (x ∷ xs)) h)
      ∙ ap
          (λ l.
            remove_chunks from_back value (suc limit - (remove_some value (suc limit) l).1) chunks
            >>= λ q. some (finish (remove_some value (suc limit) l) q))
          walked
      ∙ ap (λ (o : Option (List Chunk × ℕ)). o >>= λ q. some (finish this q)) made in
    (
      (put after.0, this.1 + after.1),
      step,
      (
        subst (λ (p : List Text × ℕ). Along from_back (put after.0) p.0) (sym whole)
            (replace_chunk-Along from_back value (suc limit) c x xs this.0 this.1 after.0 that.0 h
              refl ha),
        ap (λ n. this.1 + n) count ∙ ap (λ (p : List Text × ℕ). p.1) (sym whole),
      ),
    )
