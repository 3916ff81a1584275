-- ===== src/Storage/ListValue/Inside.antt =====
-- The calls that look into a list or change it inside, on the plain list that a list value holds.
use mathlib.Core.Path.{subst}
use fyro_db.Prelude.{
  take-min, drop-min, ℕ, ◌+◌, ◌-◌, ◌^◌, ◌<◌, ◌≡◌, refl, ap, ◌∙◌, min, Bool, Option, some, List, ◌∷◌,
  ◌++◌, arith, ltb, ◌>>=◌, All, All-append, All-take, All-drop, All-set, length, get_elem?, set,
  take, drop, length-set, length-take, length-drop,
}
use fyro_db.Cluster.Topology.{Text}
use fyro_db.Storage.QuickList.{QuickList}
use fyro_db.Storage.QuickList.Locate.{get-get_elem?}
use fyro_db.Storage.QuickList.Edit.{assign-Represents, insert_at-Represents}
use fyro_db.Storage.QuickList.Trimmed.{trim-Represents}
use fyro_db.Storage.QuickList.Remove.Elements.{without, All-without, length-without}
use fyro_db.Storage.QuickList.Remove.Struck.{without-struck}
use fyro_db.Storage.QuickList.Remove.Both.{remove_matching-Represents}
use fyro_db.Storage.QuickList.Range.{range-Represents}
use fyro_db.Storage.ListValue.{
  ListValue, small, packed, grow, shrink, list_len, list_get, list_insert, list_remove_matching,
}
use fyro_db.Storage.ListValue.Convert.{Short, Shape, shrink-Shape}
use fyro_db.Storage.ListValue.Ask.{
  IsList, slice, keep, write, insert, remove, number, elements, hit, changed, in_place, was_hit,
  told, settle_count, as_number, asked, plain, Allowed, Agrees,
}
use fyro_db.Storage.ListValue.Ends.{grown}

pub list_len-Shape : (l : ListValue) (items : List Text) → Shape l items → list_len l ≡ length items
unfolding list_len
list_len-Shape (small held) items (e, few) = ap (length {A = Text}) e
list_len-Shape (packed q) items h = h.count

pub list_get-Shape :
    (idx : ℕ) (l : ListValue) (items : List Text)
    → Shape l items
    → list_get idx l ≡ some (get_elem? items idx)
unfolding list_get
list_get-Shape idx (small held) items (e, few) = ap (λ l. some (get_elem? l idx)) e
list_get-Shape idx (packed q) items h = get-get_elem? idx q items h

module _ (items : List Text) (shorts : All Short items) where
  pub slice-Agrees : (start n : ℕ) (l : ListValue) → Shape l items → Agrees (slice start n) l items
  unfolding asked plain
  slice-Agrees start n (small held) (e, few) = (
    small held,
    ap (λ l. some (elements l, small held))
        (sliced held (omega (arith, few)) ∙ ap (λ l. take n (drop start l)) e),
    record { short = shorts; shape = (e, few) },
  )
    where
      sliced :
          (held : List Text)
          → length held < 2 ^ 63
          → (let end : ℕ = min (min (start + n) (2 ^ 64 - 1)) (length held) in
              take (end - min start end) (drop (min start end) held) ≡ take n (drop start held))
      sliced held few =
          let end : ℕ = min (min (start + n) (2 ^ 64 - 1)) (length held) in
          let from : min start end ≡ min start (length held) = omega arith in
          let many : end - min start end ≡ min n (length (drop start held)) =
            omega (arith, length-drop start held) in
          ap (λ k. take (end - min start end) (drop k held)) from
          ∙ ap (take (end - min start end)) (drop-min start held)
          ∙ ap (λ k. take k (drop start held)) many
          ∙ take-min n (drop start held)
  slice-Agrees start n (packed q) h = (
    packed q,
    ap (λ o. o >>= λ items. some (elements items, packed q)) (range-Represents start n q items h),
    record { short = shorts; shape = h },
  )

  pub keep-Agrees : (start n : ℕ) (l : ListValue) → Shape l items → Agrees (keep start n) l items
  unfolding asked plain
  keep-Agrees start n (small held) (e, few) = (
    small (take n (drop (min start (length held)) held)),
    refl,
    record {
      short = All-take Short n (drop start items) (All-drop Short start items shorts);
      shape = (
        ap (take n) (drop-min start held) ∙ ap (λ l. take n (drop start l)) e,
        omega (
          arith,
          few,
          length-take n (drop (min start (length held)) held),
          length-drop (min start (length held)) held,
        ),
      );
    },
  )
  keep-Agrees start n (packed q) h =
      let (cut, made, hc) = trim-Represents start n q items h in
      let (after, shrunk, ha) = shrink-Shape cut (take n (drop start items)) hc in
      (
        after,
        ap (λ (o : Option QuickList). changed (o >>= shrink)) made ∙ ap changed shrunk,
        record {
          short = All-take Short n (drop start items) (All-drop Short start items shorts);
          shape = ha;
        },
      )

  pub write-Agrees :
      (idx : ℕ) (value : Text) (l : ListValue)
      → Shape l items
      → Allowed (write idx value) items
      → Agrees (write idx value) l items
  unfolding asked plain
  write-Agrees idx value (small held) (e, few) (brief, small_enough) = (
    small (set held idx value),
    ap (λ l. some (hit (ltb idx (length l)), small (set held idx value))) e,
    record {
      short = All-set Short items idx value (omega (arith, brief)) shorts;
      shape = (ap (λ l. set l idx value) e, omega (arith, few, length-set held idx value));
    },
  )
  write-Agrees idx value (packed q) h (brief, small_enough) =
      let (written, made, (answer, hw)) =
        assign-Represents idx value q items h brief small_enough in
      (
        packed written.1,
        ap (λ (o : Option (Bool × QuickList)). was_hit (o >>= in_place)) made
            ∙ ap (λ b. some (hit b, packed written.1)) answer,
        record { short = All-set Short items idx value (omega (arith, brief)) shorts; shape = hw },
      )

  pub insert-Agrees :
      (idx : ℕ) (value : Text) (l : ListValue)
      → Shape l items
      → Allowed (insert idx value) items
      → Agrees (insert idx value) l items
  unfolding asked plain
  insert-Agrees idx value (small held) (e, few) (hv, room) =
      let (after, made, h) =
        grown (list_insert idx value (small held)) (take idx items ++ value ∷ drop idx items)
          inserted
          (ap (λ l. grow (take (min idx (length l)) l ++ value ∷ drop (min idx (length l)) l)) e
            ∙ ap (λ l. grow (l ++ value ∷ drop (min idx (length items)) items)) (take-min idx items)
            ∙ ap (λ l. grow (take idx items ++ value ∷ l)) (drop-min idx items)) in
      (after, ap changed made, h)
    where
      inserted : All Short (take idx items ++ value ∷ drop idx items)
      inserted =
          All-append Short (take idx items) (value ∷ drop idx items)
            (All-take Short idx items shorts) (hv, All-drop Short idx items shorts)
  insert-Agrees idx value (packed q) h (hv, room) =
      let (more, made, hm) = insert_at-Represents idx value q items h hv room in
      (
        packed more,
        ap (λ (o : Option QuickList). changed (o >>= λ q. some (packed q))) made,
        record { short = inserted; shape = hm },
      )
    where
      inserted : All Short (take idx items ++ value ∷ drop idx items)
      inserted =
          All-append Short (take idx items) (value ∷ drop idx items)
            (All-take Short idx items shorts) (hv, All-drop Short idx items shorts)

  pub remove-Agrees :
      (value : Text) (limit : ℕ) (from_back : Bool) (l : ListValue)
      → Shape l items
      → Agrees (remove value limit from_back) l items
  unfolding asked plain list_remove_matching
  remove-Agrees value limit from_back l h =
      subst
        (λ (r : ℕ × List Text).
          (after : ListValue) × (list_remove_matching value limit from_back l >>= as_number
            ≡ some (number r.0, after))
          × IsList after r.1)
        (without-struck value limit from_back items) (removed l h)
    where
      removed :
          (l : ListValue)
          → Shape l items
          → (after : ListValue) × (list_remove_matching value limit from_back l >>= as_number
              ≡ some (number (without value limit from_back items).0, after))
            × IsList after (without value limit from_back items).1
      removed (small held) (e, few) = (
        small (without value limit from_back held).1,
        ap
            (λ l. some (
              number (without value limit from_back l).0,
              small (without value limit from_back held).1,
            ))
            e,
        record {
          short = All-without Short value limit from_back items shorts;
          shape = (
            ap (λ l. (without value limit from_back l).1) e,
            omega (arith, few, length-without value limit from_back held),
          );
        },
      )
      removed (packed q) h =
          let (cut, made, (many, hc)) =
            remove_matching-Represents value limit from_back q items h in
          let (after, shrunk, ha) = shrink-Shape cut.1 (without value limit from_back items).1 hc in
          (
            after,
            ap (λ (o : Option (ℕ × QuickList)). o >>= settle_count >>= as_number) made
                ∙ ap (λ (o : Option ListValue). o >>= told cut.0 >>= as_number) shrunk
                ∙ ap (λ n. some (number n, after)) many,
            record { short = All-without Short value limit from_back items shorts; shape = ha },
          )
