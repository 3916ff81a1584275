-- ===== src/Storage/ListValue/Refine.antt =====
-- A list value answers every sequence of calls as a plain list does.
use fyro_db.Prelude.{◌≡◌, refl, ap, ◌∙◌, Option, some, List, [], ◌∷◌, arith, ◌>>=◌}
use fyro_db.Cluster.Topology.{Text}
use fyro_db.Storage.ListValue.{ListValue, new_value}
use fyro_db.Storage.ListValue.Ask.{
  Ask, put_last, put_first, take_first, take_last, count, clear, read, slice, keep, write, insert,
  remove, Reply, number, element, asked, plain, Allowed, IsList, Agrees,
}
use fyro_db.Storage.ListValue.Ends.{
  put_last-Agrees, put_first-Agrees, take_first-Agrees, take_last-Agrees,
}
use fyro_db.Storage.ListValue.Inside.{
  list_len-Shape, list_get-Shape, slice-Agrees, keep-Agrees, write-Agrees, insert-Agrees,
  remove-Agrees,
}

-- One call.
asked-Agrees :
    (ask : Ask) (l : ListValue) (items : List Text)
    → IsList l items
    → Allowed ask items
    → Agrees ask l items
asked-Agrees (put_last s) l items h fits = put_last-Agrees items h.short s l h.shape fits
asked-Agrees (put_first s) l items h fits = put_first-Agrees items h.short s l h.shape fits
asked-Agrees take_first l items h fits = take_first-Agrees items h.short l h.shape
asked-Agrees take_last l items h fits = take_last-Agrees items h.short l h.shape
asked-Agrees count l items h fits =
    unfold asked plain in (l, ap (λ n. some (number n, l)) (list_len-Shape l items h.shape), h)
asked-Agrees clear l items h fits =
    unfold asked plain in (new_value, refl, record { short = tt; shape = (refl, omega arith) })
asked-Agrees (read idx) l items h fits =
    unfold asked plain in
    (
      l,
      ap (λ (o : Option (Option Text)). o >>= λ found. some (element found, l))
          (list_get-Shape idx l items h.shape),
      h,
    )
asked-Agrees (slice start n) l items h fits = slice-Agrees items h.short start n l h.shape
asked-Agrees (keep start n) l items h fits = keep-Agrees items h.short start n l h.shape
asked-Agrees (write idx value) l items h fits = write-Agrees items h.short idx value l h.shape fits
asked-Agrees (insert idx value) l items h fits =
    insert-Agrees items h.short idx value l h.shape fits
asked-Agrees (remove value limit from_back) l items h fits =
    remove-Agrees items h.short value limit from_back l h.shape

-- Calls in order: the answers, and what is left.
unfoldable pub run : List Ask → ListValue → Option (List Reply × ListValue)
unfolding asked
run [] l = some ([], l)
run (ask ∷ asks) l = do
  (reply, l) ← asked ask l
  (replies, l) ← run asks l
  some (reply ∷ replies, l)

unfoldable pub run_plain : List Ask → List Text → List Reply × List Text
unfolding plain
run_plain [] items = ([], items)
run_plain (ask ∷ asks) items =
    let (replies, left) = run_plain asks (plain ask items).1 in
    ((plain ask items).0 ∷ replies, left)

-- Every call keeps to the sizes where it is made.
abbrev pub AllAllowed : List Ask → List Text → Type 0
AllAllowed [] items = Unit
AllAllowed (ask ∷ asks) items = Allowed ask items × AllAllowed asks (plain ask items).1

-- A list value answers every sequence of calls as a plain list does, whichever representation it
-- has in between, never panics, and holds the plain list's elements in the end, if the strings
-- have less than 2^31 bytes, those written in place of others at most 4096, and all together less
-- than 2^32.
pub run-run_plain :
    (asks : List Ask) (l : ListValue) (items : List Text)
    → IsList l items
    → AllAllowed asks items
    → (after : ListValue) × (run asks l ≡ some ((run_plain asks items).0, after))
      × IsList after (run_plain asks items).1
unfolding run run_plain
run-run_plain [] l items h fits = (l, refl, h)
run-run_plain (ask ∷ asks) l items h (fits, all_fit) =
    let (next, made, hn) = asked-Agrees ask l items h fits in
    let (after, rest, ha) = run-run_plain asks next (plain ask items).1 hn all_fit in
    (
      after,
      ap
            (λ (o : Option (Reply × ListValue)).
              o >>= λ p. run asks p.1 >>= λ r. some (p.0 ∷ r.0, r.1))
            made
          ∙ ap
              (λ (o : Option (List Reply × ListValue)).
                o >>= λ r. some ((plain ask items).0 ∷ r.0, r.1))
              rest,
      ha,
    )
