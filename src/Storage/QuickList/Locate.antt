-- ===== src/Storage/QuickList/Locate.antt =====
-- Where `locate` finds an index, and what is read there.
use mathlib.Core.Path.{subst}
use fyro_db.Prelude.{
  get_elem?-append_before, get_elem?_beyond, ℕ, ◌+◌, ◌-◌, ◌/◌, ◌≤◌, ◌<◌, ◌≡◌, refl, sym, ap, ◌∙◌,
  inl, inr, true, false, none, some, List, ◌∷◌, ◌++◌, arith, ltb, leb, Bool-cases, length,
  get_elem?, length-append, append_assoc,
}
use fyro_db.Cluster.Topology.{Text}
use fyro_db.Storage.Chunk.{Chunk, chunk_get}
use fyro_db.Storage.Chunk.Held.{chunk_get-Holds}
use fyro_db.Storage.QuickList.{QuickList, locate_back, backwards, locate, get}
use fyro_db.Storage.QuickList.Ends.{Represents}
use fyro_db.Storage.QuickList.Walk.{Place, Finds, locate_front-Finds, locate_back-Finds}

locate-Finds_from :
    (idx : ℕ) (q : QuickList) (items : List Text)
    → Represents q items
    → idx < length items
    → Finds (locate idx q) 0 q.chunks items idx
unfolding locate
locate-Finds_from idx q items h low =
    let in_range : leb q.len idx ≡ false = ground (arith, h.count, low) in
    elim (Bool-cases (ltb idx (q.len / 2))) [
      | inl near ↦ rw (in_range, near) (locate_front-Finds 0 idx q.chunks items h.chunked low)
      | inr far ↦
          rw (in_range, far)
            (subst
              (λ i. Finds (locate_back (q.len - 1 - idx) (backwards q.chunks)) 0 q.chunks items i)
              (omega (arith, h.count, low))
              (locate_back-Finds (q.len - 1 - idx) q.chunks items h.chunked
                (omega (arith, h.count, low))))
    ]

-- An index in range is found.
pub locate-Finds :
    (idx : ℕ) (q : QuickList) (items : List Text)
    → Represents q items
    → idx < length items
    → (ci : ℕ) × (j : ℕ) × (locate idx q ≡ some (ci, j)) × Place q.chunks items idx ci j
locate-Finds idx q items h low =
    let (ci, j, found, p) = locate-Finds_from idx q items h low in
    let plain : 0 + ci ≡ ci = omega arith in (ci, j, found ∙ ap (λ n. some (n, j)) plain, p)

pub locate_beyond :
    (idx : ℕ) (q : QuickList) (items : List Text)
    → Represents q items
    → length items ≤ idx
    → locate idx q ≡ none
unfolding locate
locate_beyond idx q items h high =
    let beyond : leb q.len idx ≡ true = ground (arith, h.count, high) in rw beyond refl

-- What stands at a place.
get_elem?-Place :
    (chunks : List Chunk) (items : List Text) (idx ci j : ℕ)
    → (p : Place chunks items idx ci j) → get_elem? items idx ≡ some p.here
get_elem?-Place chunks items idx ci j p =
    let split : items ≡ (p.before ++ p.left) ++ p.here ∷ (p.right ++ p.behind) =
      p.content
      ∙ ap (λ l. p.before ++ l) (append_assoc p.left (p.here ∷ p.right) p.behind)
      ∙ sym (append_assoc p.before p.left (p.here ∷ (p.right ++ p.behind))) in
    ap (λ l. get_elem? l idx) split
    ∙ ap (get_elem? ((p.before ++ p.left) ++ p.here ∷ (p.right ++ p.behind)))
        (p.place ∙ sym (length-append p.before p.left))
    ∙ get_elem?-append_before (p.before ++ p.left) (p.right ++ p.behind) p.here

-- Reading at any index answers the element there, or none out of range, from whichever end the
-- list looks for it.
pub get-get_elem? :
    (idx : ℕ) (q : QuickList) (items : List Text)
    → Represents q items
    → get idx q ≡ some (get_elem? items idx)
unfolding get
get-get_elem? idx q items h = elim (Bool-cases (ltb idx (length items))) [
  | inl low ↦
      let (ci, j, found, p) = locate-Finds idx q items h (ground (arith, low)) in
      let there : chunk_get p.chunk j ≡ some p.here =
        ap (chunk_get p.chunk) (sym p.index)
        ∙ chunk_get-Holds p.chunk p.left p.right p.here p.holds in
      rw (found, get, p.at, there) (ap some (sym (get_elem?-Place q.chunks items idx ci j p)))
  | inr high ↦
      rw (locate_beyond idx q items h (ground (arith, high)), get)
        (ap some (sym (get_elem?_beyond items idx (ground (arith, high)))))
]
