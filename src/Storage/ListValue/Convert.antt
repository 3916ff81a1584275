-- ===== src/Storage/ListValue/Convert.antt =====
-- The list value changes its representation and keeps its elements.
use mathlib.Core.Path.{subst}
use fyro_db.Prelude.{
  ◌^◌, ◌≤◌, ◌<◌, ◌≡◌, refl, sym, ap, ◌∙◌, inl, inr, Option, some, List, [], ◌∷◌, ◌++◌, arith, ltb,
  leb, ◌>>=◌, Bool-cases, All, length, append-nil, append_assoc,
}
use fyro_db.Cluster.Topology.{Text}
use fyro_db.Storage.Chunk.Held.{Gives}
use fyro_db.Storage.QuickList.{QuickList, new_list}
use fyro_db.Storage.QuickList.Ends.{Represents}
use fyro_db.Storage.QuickList.Grow.{push_back-Represents}
use fyro_db.Storage.QuickList.Range.{iter-Chunked}
use fyro_db.Storage.ListValue.{
  ListValue, small, packed, push_all, grow, shrink, small_max, small_back,
}

-- A string that the protocol lets in.
abbrev pub Short : Text → Type 0
Short s = length s < 2 ^ 31

-- A small list has few elements.
abbrev pub Shape : ListValue → List Text → Type 0
Shape (small held) items = (held ≡ items) × (length held ≤ small_max)
Shape (packed q) items = Represents q items

push_all-Represents :
    (items done : List Text) (q : QuickList)
    → All Short items
    → Represents q done
    → Gives (push_all items q) (λ after. Represents after (done ++ items))
unfolding push_all
push_all-Represents [] done q short h = (q, refl, subst (Represents q) (sym (append-nil done)) h)
push_all-Represents (s ∷ items) done q (short, shorts) h =
    let (more, made, hm) = push_back-Represents q done s short h in
    let (after, rest, ha) = push_all-Represents items (done ++ s ∷ []) more shorts hm in
    (
      after,
      ap (λ (o : Option QuickList). o >>= push_all items) made ∙ rest,
      subst (Represents after) (append_assoc done (s ∷ []) items) ha,
    )

pub grow-Shape : (items : List Text) → All Short items → Gives (grow items) (λ l. Shape l items)
unfolding grow
grow-Shape items short = elim (Bool-cases (ltb small_max (length items))) [
  | inl many ↦
      let (q, made, h) =
        push_all-Represents items [] new_list short (record { chunked = refl; count = refl }) in
      (packed q, rw many (ap (λ (o : Option QuickList). o >>= λ q. some (packed q)) made), h)
  | inr few ↦ (small items, rw few refl, (refl, ground (arith, few)))
]

pub shrink-Shape :
    (q : QuickList) (items : List Text) → Represents q items → Gives (shrink q) (λ l. Shape l items)
unfolding shrink
shrink-Shape q items h = elim (Bool-cases (leb q.len small_back)) [
  | inl few ↦ (
    small items,
    rw few (
        ap (λ (o : Option (List Text)). o >>= λ items. some (small items))
          (iter-Chunked q.chunks items h.chunked)),
    (refl, ground (arith, few, h.count)),
  )
  | inr many ↦ (packed q, rw many refl, h)
]
