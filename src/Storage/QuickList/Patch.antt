-- ===== src/Storage/QuickList/Patch.antt =====
-- One chunk rewritten with other elements, inside a quick list.
use fyro_db.Prelude.{
  set-append, ℕ, ◌+◌, ◌≤◌, ◌≡◌, sym, ap, ◌∙◌, true, false, none, some, List, [], ◌∷◌, ◌++◌, arith,
  ltb, leb, ◌==◌, if◌then◌else◌, ◌>>=◌, length, get_elem?, set, take, drop, length-append,
  append_assoc, take-append_length, drop-append_length,
}
use fyro_db.Cluster.Topology.{Text}
use fyro_db.Storage.Chunk.{Chunk, chunk_iter}
use fyro_db.Storage.Chunk.Packed.{join, join-append}
use fyro_db.Storage.QuickList.{QuickList, locate, rewrite_chunk, assign, insert_at}

pub length-join_part : (a b c : List Text) → length (join b) ≤ length (join (a ++ (b ++ c)))
length-join_part a b c = omega (
  arith,
  ap (length {A = ℕ}) (join-append a (b ++ c)),
  ap (length {A = ℕ}) (join-append b c),
  length-append (join a) (join (b ++ c)),
  length-append (join b) (join c),
)

pub set_at :
    (a b c d : List Text) (x y : Text)
    → set (a ++ ((b ++ x ∷ c) ++ d)) (length a + length b) y ≡ a ++ ((b ++ y ∷ c) ++ d)
set_at a b c d x y =
    let apart = λ (z : Text).
      ap (λ l. a ++ l) (append_assoc b (z ∷ c) d) ∙ sym (append_assoc a b (z ∷ (c ++ d))) in
    ap (λ l. set l (length a + length b) y) (apart x)
    ∙ ap (λ n. set ((a ++ b) ++ x ∷ (c ++ d)) n y) (sym (length-append a b))
    ∙ set-append (a ++ b) (c ++ d) x y
    ∙ sym (apart y)

take_at : (a b c : List Text) → take (length a + length b) (a ++ (b ++ c)) ≡ a ++ b
take_at a b c =
    ap (λ l. take (length a + length b) l) (sym (append_assoc a b c))
    ∙ ap (λ n. take n ((a ++ b) ++ c)) (sym (length-append a b))
    ∙ take-append_length (a ++ b) c

pub drop_at : (a b c : List Text) → drop (length a + length b) (a ++ (b ++ c)) ≡ c
drop_at a b c =
    ap (λ l. drop (length a + length b) l) (sym (append_assoc a b c))
    ∙ ap (λ n. drop n ((a ++ b) ++ c)) (sym (length-append a b))
    ∙ drop-append_length (a ++ b) c

module _ (idx ci j : ℕ) (value : Text) (q : QuickList) (c : Chunk) (items : List Text)
    (found : locate idx q ≡ some (ci, j)) (at : get_elem? q.chunks ci ≡ some c)
    (held : chunk_iter c ≡ some items) where
  pub assign_step :
      ltb j (length items) ≡ true
      → assign idx value q
        ≡ (rewrite_chunk ci (set items j value) q >>= λ after. some (true, after))
  unfolding assign
  assign_step within =
      rw (found, assign)
        (ap
            (λ o. o >>= λ c. chunk_iter c >>= λ items.
              (if ltb j (length items) then rewrite_chunk ci (set items j value) q else none)
              >>= λ after. some (true, after))
            at
          ∙ ap
              (λ o. o >>= λ (items : List Text).
                (if ltb j (length items) then rewrite_chunk ci (set items j value) q else none)
                >>= λ after. some (true, after))
              held
          ∙ ap
              (λ b. (if b then rewrite_chunk ci (set items j value) q else none) >>= λ after.
                some (true, after))
              within)

  pub insert_step :
      (idx == 0) ≡ false
      → leb q.len idx ≡ false
      → leb j (length items) ≡ true
      → insert_at idx value q ≡ rewrite_chunk ci (take j items ++ value ∷ drop j items) q
  unfolding insert_at
  insert_step inner short within =
      rw (found, insert_at, inner, short)
        (ap
            (λ o. o >>= λ c. chunk_iter c >>= λ items.
              if leb j (length items)
              then rewrite_chunk ci (take j items ++ value ∷ drop j items) q
              else none)
            at
          ∙ ap
              (λ o. o >>= λ (items : List Text).
                if leb j (length items)
                then rewrite_chunk ci (take j items ++ value ∷ drop j items) q
                else none)
              held
          ∙ ap (λ b. if b then rewrite_chunk ci (take j items ++ value ∷ drop j items) q else none)
              within)

pub length-join_with :
    (left right : List Text) (value : Text)
    → length (join (left ++ value ∷ right)) ≡ length (join (left ++ right)) + length value
length-join_with [] right value = omega (arith, length-append value (join right))
length-join_with (s ∷ left) right value = omega (
  arith,
  length-join_with left right value,
  length-append s (join (left ++ value ∷ right)),
  length-append s (join (left ++ right)),
)

pub inserted_at :
    (items before left behind right : List Text) (here value : Text) (idx : ℕ)
    → items ≡ before ++ ((left ++ here ∷ right) ++ behind)
    → idx ≡ length before + length left
    → before ++ ((left ++ value ∷ here ∷ right) ++ behind)
      ≡ take idx items ++ value ∷ drop idx items
inserted_at items before left behind right here value idx content place =
    let tail = here ∷ (right ++ behind) in
    let split : items ≡ before ++ (left ++ tail) =
      content ∙ ap (λ l. before ++ l) (append_assoc left (here ∷ right) behind) in
    ap (λ l. before ++ l) (append_assoc left (value ∷ here ∷ right) behind)
    ∙ sym (append_assoc before left (value ∷ tail))
    ∙ ap (λ l. l ++ value ∷ tail) (sym (take_at before left tail))
    ∙ ap (λ l. take (length before + length left) (before ++ (left ++ tail)) ++ value ∷ l)
        (sym (drop_at before left tail))
    ∙ ap (λ n. take n (before ++ (left ++ tail)) ++ value ∷ drop n (before ++ (left ++ tail)))
        (sym place)
    ∙ ap (λ l. take idx l ++ value ∷ drop idx l) (sym split)
