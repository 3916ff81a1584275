-- ===== src/Storage/ListValue/Ends.antt =====
-- Elements put in and taken off at the ends of a list value.
use fyro_db.Prelude.{
  ◌≤◌, ◌≡◌, ap, ◌∙◌, Option, some, List, [], ◌∷◌, ◌++◌, arith, ◌>>=◌, All, All-append, length,
}
use fyro_db.Cluster.Topology.{Text}
use fyro_db.Storage.Chunk.Held.{Gives}
use fyro_db.Storage.QuickList.{QuickList}
use fyro_db.Storage.QuickList.Grow.{push_back-Represents, push_front-Represents}
use fyro_db.Storage.QuickList.Shrink.{
  Popped, first, others, last, init, pop_front-Represents, pop_back-Represents,
}
use fyro_db.Storage.ListValue.{ListValue, small, packed, grow, list_push_back, list_push_front}
use fyro_db.Storage.ListValue.Convert.{Short, Shape, grow-Shape, shrink-Shape}
use fyro_db.Storage.ListValue.Ask.{
  put_last, put_first, take_first, take_last, element, changed, with_answer, settle, answered,
  asked, plain, IsList, Agrees,
}

All-init : (items : List Text) → All Short items → All Short (init items)
All-init [] h = tt
All-init (x ∷ []) h = tt
All-init (x ∷ y ∷ items) (hx, h) = (hx, All-init (y ∷ items) h)

All-others : (items : List Text) → All Short items → All Short (others items)
All-others [] h = tt
All-others (x ∷ items) h = h.1

length-others : (items : List Text) → length (others items) ≤ length items
length-others [] = omega arith
length-others (x ∷ items) = omega arith

length-init : (items : List Text) → length (init items) ≤ length items
length-init [] = omega arith
length-init (x ∷ []) = omega arith
length-init (x ∷ y ∷ items) = omega (arith, length-init (y ∷ items))

-- A list that may have grown.
pub grown :
    (made : Option ListValue) (more : List Text)
    → All Short more
    → made ≡ grow more
    → Gives made (λ after. IsList after more)
grown made more short e =
    let (after, made_so, h) = grow-Shape more short in
    (after, e ∙ made_so, record { short = short; shape = h })

module _ (items : List Text) (shorts : All Short items) where
  -- A pop of the quick list and the change of representation behind it.
  settle-Agrees :
      (result : Option (Option Text × QuickList)) (x : Option Text) (left : List Text)
      → All Short left
      → Gives result (λ popped. Popped popped x left)
      → (after : ListValue) × (answered (result >>= settle) ≡ some (element x, after))
        × IsList after left
  settle-Agrees result x left short (popped, made, (answer, hp)) =
      let (after, shrunk, ha) = shrink-Shape popped.1 left hp in
      (
        after,
        ap (λ (o : Option (Option Text × QuickList)). answered (o >>= settle)) made
            ∙ ap (λ (o : Option ListValue). answered (o >>= with_answer popped.0)) shrunk
            ∙ ap (λ x. some (element x, after)) answer,
        record { short = short; shape = ha },
      )

  pub list_push_back-IsList :
      (s : Text) (l : ListValue)
      → Shape l items
      → Short s
      → Gives (list_push_back s l) (λ after. IsList after (items ++ s ∷ []))
  unfolding list_push_back
  list_push_back-IsList s (small held) (e, few) hs =
      grown (grow (held ++ s ∷ [])) (items ++ s ∷ [])
        (All-append Short items (s ∷ []) shorts (hs, tt)) (ap (λ l. grow (l ++ s ∷ [])) e)
  list_push_back-IsList s (packed q) h hs =
      let (more, made, hm) = push_back-Represents q items s hs h in
      (
        packed more,
        ap (λ (o : Option QuickList). o >>= λ q. some (packed q)) made,
        record { short = All-append Short items (s ∷ []) shorts (hs, tt); shape = hm },
      )

  pub put_last-Agrees :
      (s : Text) (l : ListValue) → Shape l items → Short s → Agrees (put_last s) l items
  unfolding asked plain
  put_last-Agrees s l shape hs =
      let (after, made, h) = list_push_back-IsList s l shape hs in (after, ap changed made, h)

  pub put_first-Agrees :
      (s : Text) (l : ListValue) → Shape l items → Short s → Agrees (put_first s) l items
  unfolding asked plain
  put_first-Agrees s (small held) (e, few) hs =
      let (after, made, h) =
        grown (list_push_front s (small held)) (s ∷ items) (hs, shorts)
          (ap (λ l. grow (s ∷ l)) e) in
      (after, ap changed made, h)
  put_first-Agrees s (packed q) h hs =
      let (more, made, hm) = push_front-Represents q items s hs h in
      (
        packed more,
        ap (λ (o : Option QuickList). changed (o >>= λ q. some (packed q))) made,
        record { short = (hs, shorts); shape = hm },
      )

  pub take_first-Agrees : (l : ListValue) → Shape l items → Agrees take_first l items
  unfolding asked plain
  take_first-Agrees (small held) (e, few) = (
    small (others held),
    ap (λ o. some (element (first o), small (others held))) e,
    record {
      short = All-others items shorts;
      shape = (ap others e, omega (arith, few, length-others held));
    },
  )
  take_first-Agrees (packed q) h =
      settle-Agrees _ (first items) (others items) (All-others items shorts)
        (pop_front-Represents q items h)

  pub take_last-Agrees : (l : ListValue) → Shape l items → Agrees take_last l items
  unfolding asked plain
  take_last-Agrees (small held) (e, few) = (
    small (init held),
    ap (λ o. some (element (last o), small (init held))) e,
    record {
      short = All-init items shorts;
      shape = (ap init e, omega (arith, few, length-init held));
    },
  )
  take_last-Agrees (packed q) h =
      settle-Agrees _ (last items) (init items) (All-init items shorts)
        (pop_back-Represents q items h)
