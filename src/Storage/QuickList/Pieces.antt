-- ===== src/Storage/QuickList/Pieces.antt =====
-- Quick lists put together from chunks and taken apart, and their reverse.
use mathlib.Core.Path.{subst}
use fyro_db.Prelude.{
  ◌<◌, ◌≡◌, refl, sym, ap, ◌∙◌, List, [], ◌∷◌, ◌++◌, length, append-nil, append_assoc,
}
use fyro_db.Cluster.Topology.{Text}
use fyro_db.Storage.Chunk.{Chunk}
use fyro_db.Storage.Chunk.Packed.{Holds}
use fyro_db.Storage.QuickList.{backwards}
use fyro_db.Storage.QuickList.Ends.{Chunked}

pub Chunked-cons :
    (c : Chunk) (chunks : List Chunk) (items rest : List Text)
    → Holds c items
    → 0 < length items
    → Chunked chunks rest
    → Chunked (c ∷ chunks) (items ++ rest)
Chunked-cons c chunks [] rest h some_item later = elim some_item [ ]
Chunked-cons c chunks (x ∷ xs) rest h some_item later = (x, xs, rest, h, refl, later)

pub Chunked-single :
    (c : Chunk) (items : List Text) → Holds c items → 0 < length items → Chunked (c ∷ []) items
Chunked-single c items h some_item =
    subst (Chunked (c ∷ [])) (append-nil items) (Chunked-cons c [] items [] h some_item refl)

Chunked-split :
    (ahead chunks : List Chunk) (items : List Text)
    → Chunked (ahead ++ chunks) items
    → (u : List Text) × (v : List Text) × (items ≡ u ++ v) × Chunked ahead u × Chunked chunks v
Chunked-split [] chunks items h = ([], items, refl, refl, h)
Chunked-split (c ∷ ahead) chunks items (x, xs, rest, h, e, later) =
    let (u, v, split, hu, hv) = Chunked-split ahead chunks rest later in
    (
      x ∷ (xs ++ u),
      v,
      e ∙ ap (λ r. x ∷ (xs ++ r)) split ∙ ap (λ l. x ∷ l) (sym (append_assoc xs u v)),
      (x, xs, u, h, refl, hu),
      hv,
    )

pub backwards-append {ℓ} :
    {A : Type ℓ} (a b : List A) → backwards (a ++ b) ≡ backwards b ++ backwards a
backwards-append [] b = sym (append-nil (backwards b))
backwards-append (c ∷ a) b =
    ap (λ l. l ++ c ∷ []) (backwards-append a b) ∙ append_assoc (backwards b) (backwards a) (c ∷ [])

pub backwards-backwards {ℓ} : {A : Type ℓ} (xs : List A) → backwards (backwards xs) ≡ xs
backwards-backwards [] = refl
backwards-backwards (c ∷ xs) =
    backwards-append (backwards xs) (c ∷ []) ∙ ap (λ l. c ∷ l) (backwards-backwards xs)

-- The chunk at the end of the list is the first of the reverse order.
pub last_chunk :
    (c : Chunk) (chunks : List Chunk) (items : List Text)
    → Chunked (backwards chunks ++ c ∷ []) items
    → (u : List Text) × (x : Text) × (xs : List Text) × (items ≡ u ++ x ∷ xs)
      × Chunked (backwards chunks) u
      × Holds c (x ∷ xs)
last_chunk c chunks items h =
    let (u, v, split, hu, (x, xs, rest, hc, e, nothing)) =
      Chunked-split (backwards chunks) (c ∷ []) items h in
    (
      u,
      x,
      xs,
      split
          ∙ ap (λ l. u ++ l)
              (e ∙ ap (λ r. x ∷ (xs ++ r)) nothing ∙ ap (λ l. x ∷ l) (append-nil xs)),
      hu,
      hc,
    )
