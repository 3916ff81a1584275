-- ===== src/Cluster/Transport/Vectored.antt =====
-- `write_all_slices` (src/cluster/transport/codec.rs). What the writer answers to each call of
-- `write_vectored` is a list of events that the environment chooses.
pub mod Delivery
use fyro_db.Prelude.{
  ℕ, zero, suc, ◌+◌, ◌-◌, ◌≤◌, Bool, true, false, List, [], ◌∷◌, ◌++◌, leb, ◌==◌, if◌then◌else◌,
  length, take, drop,
}

-- One answer of `write_vectored`: the count of bytes taken, or an error.
pub data Answer : Type 0 where
  wrote : ℕ → Answer
  interrupted : Answer
  failed : Answer

-- How the loop stands when the answers are used up or it has returned.
pub data Status : Type 0 where
  done write_zero io_error pending : Status

abbrev pub concat : List (List ℕ) → List ℕ
concat [] = []
concat (buf ∷ bufs) = buf ++ concat bufs

-- `bufs = &mut bufs[skip..]`
unfoldable pub skip_empty : List (List ℕ) → List (List ℕ)
skip_empty [] = []
skip_empty ([] ∷ bufs) = skip_empty bufs
skip_empty ((b ∷ buf) ∷ bufs) = (b ∷ buf) ∷ bufs

-- Drops the buffers that `n` bytes cover, and advances into the first that is left.
unfoldable pub advance : ℕ → List (List ℕ) → List (List ℕ)
advance n [] = []
advance n (buf ∷ bufs) =
    if leb (length buf) n then advance (n - length buf) bufs else drop n buf ∷ bufs

-- The `match` on an answer, with the rest of the loop.
unfoldable pub on_answer :
    Answer → List (List ℕ) → List ℕ → (List (List ℕ) → List ℕ → Status × List ℕ) → Status × List ℕ
on_answer (wrote n) bufs out again =
    if n == 0 then (write_zero, out) else again (advance n bufs) (out ++ take n (concat bufs))
on_answer interrupted bufs out again = again bufs out
on_answer failed bufs out again = (io_error, out)

-- The loop on the answers to come, the buffers left and what the writer holds.
unfoldable pub write_all_slices : List Answer → List (List ℕ) → List ℕ → Status × List ℕ
write_all_slices [] bufs out = elim (skip_empty bufs) [ [] ↦ (done, out) | _ ∷ _ ↦ (pending, out) ]
write_all_slices (answer ∷ answers) bufs out = elim (skip_empty bufs) [
  | [] ↦ (done, out)
  | buf ∷ left ↦ on_answer answer (buf ∷ left) out (write_all_slices answers)
]
