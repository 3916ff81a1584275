-- ===== src/Storage/ListValue/Build.antt =====
-- `ListValue::from_strs` of src/storage/value/list.rs.
use fyro_db.Prelude.{
  refl, sym, ap, ◌∙◌, Option, List, [], ◌∷◌, ◌++◌, ◌>>=◌, All, append-nil, append_assoc,
}
use mathlib.Core.Path.{subst}
use fyro_db.Cluster.Topology.{Text}
use fyro_db.Storage.Chunk.Held.{Gives}
use fyro_db.Storage.ListValue.{ListValue, list_push_all}
use fyro_db.Storage.ListValue.Convert.{Short}
use fyro_db.Storage.ListValue.Ask.{IsList}
use fyro_db.Storage.ListValue.Ends.{list_push_back-IsList}

-- The strings are put behind what the list value holds, in their order.
list_push_all-IsList :
    (more : List Text) (l : ListValue) (items : List Text)
    → IsList l items
    → All Short more
    → Gives (list_push_all more l) (λ after. IsList after (items ++ more))
unfolding list_push_all
list_push_all-IsList [] l items h short = (l, refl, subst (IsList l) (sym (append-nil items)) h)
list_push_all-IsList (s ∷ more) l items h (one, short) =
    let (next, made, hn) = list_push_back-IsList items h.short s l h.shape one in
    let (after, rest, ha) = list_push_all-IsList more next (items ++ s ∷ []) hn short in
    (
      after,
      ap (λ (o : Option ListValue). o >>= list_push_all more) made ∙ rest,
      subst (IsList after) (append_assoc items (s ∷ []) more) ha,
    )
