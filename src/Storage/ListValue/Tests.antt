-- ===== src/Storage/ListValue/Tests.antt =====
-- Lists at concrete elements, and the theorems there.
use fyro_db.Prelude.{
  ℕ, ◌≡◌, refl, true, none, some, List, [], ◌∷◌, arith, codes, replicate, length-replicate,
}
use fyro_db.Cluster.Topology.{Text}
use fyro_db.Storage.Chunk.{Chunk}
use fyro_db.Storage.Chunk.Packed.{Holds}
use fyro_db.Storage.QuickList.{QuickList, assign, pop_front, get}
use fyro_db.Storage.QuickList.Ends.{Represents}
use fyro_db.Storage.QuickList.Locate.{get-get_elem?}
use fyro_db.Storage.QuickList.Broken.{pop_front-assign}
use fyro_db.Storage.QuickList.Remove.Struck.{occurrences, strike}
use fyro_db.Storage.ListValue.{ListValue, packed}
use fyro_db.Storage.ListValue.Ask.{
  Ask, put_first, take_first, write, insert, remove, slice, keep, count, done, number, element,
  elements, hit, IsList,
}
use fyro_db.Storage.ListValue.Refine.{run, run_plain, run-run_plain}

-- A chunk whose first element was taken off, so that a part of its buffer is dead.
abbrev two_left : Chunk
two_left = record { bytes = codes "xabc"; offs = 0 ∷ 1 ∷ 3 ∷ 4 ∷ []; head = 1 }

abbrev one_alone : Chunk
one_alone = record { bytes = codes "z"; offs = 0 ∷ 1 ∷ []; head = 0 }

two_left-Holds : Holds two_left (codes "ab" ∷ codes "c" ∷ [])
two_left-Holds = record { gap = codes "x"; dead = 0 ∷ []; shape = refl; fits = omega arith }

one_alone-Holds : Holds one_alone (codes "z" ∷ [])
one_alone-Holds = record { gap = []; dead = []; shape = refl; fits = omega arith }

abbrev three : QuickList
three = record { chunks = two_left ∷ one_alone ∷ []; len = 3 }

three-Represents : Represents three (codes "ab" ∷ codes "c" ∷ codes "z" ∷ [])
three-Represents = record {
  chunked = (
    codes "ab",
    codes "c" ∷ [],
    codes "z" ∷ [],
    two_left-Holds,
    refl,
    (codes "z", [], [], one_alone-Holds, refl, refl),
  );
  count = refl;
}

get-get_elem?_example : get 2 three ≡ some (some (codes "z"))
get-get_elem?_example =
    get-get_elem? 2 three (codes "ab" ∷ codes "c" ∷ codes "z" ∷ []) three-Represents

abbrev asks : List Ask
asks =
    put_first (codes "new")
    ∷ insert 2 (codes "in")
    ∷ write 3 (codes "C")
    ∷ slice 1 3
    ∷ take_first
    ∷ keep 1 2
    ∷ count
    ∷ remove (codes "in") 2 true
    ∷ []

run-run_plain_example :
    (after : ListValue) × (run asks (packed three)
      ≡ some (
        done
            ∷ done
            ∷ hit true
            ∷ elements (codes "ab" ∷ codes "in" ∷ codes "C" ∷ [])
            ∷ element (some (codes "new"))
            ∷ done
            ∷ number 2
            ∷ number 1
            ∷ [],
        after,
      ))
    × IsList after (codes "C" ∷ [])
unfolding run_plain strike occurrences
run-run_plain_example =
    run-run_plain asks (packed three) (codes "ab" ∷ codes "c" ∷ codes "z" ∷ [])
      (record { short = omega arith; shape = three-Represents }) (omega arith)

abbrev long_value : Text
long_value = replicate 4097 b'v'

-- The first chunk holds one element, and another chunk is behind it.
pop_front-assign_example :
    (after : QuickList) × (assign 0 long_value
        (record { chunks = one_alone ∷ one_alone ∷ []; len = 2 })
      ≡ some (true, after))
    × (pop_front after ≡ none)
pop_front-assign_example =
    pop_front-assign long_value (codes "z") one_alone (one_alone ∷ []) (codes "z" ∷ [])
      one_alone-Holds (codes "z", [], [], one_alone-Holds, refl, refl)
      (omega (arith, length-replicate {A = ℕ} 4097 b'v'))
