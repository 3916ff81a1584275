-- ===== src/Cluster/Transport/Vectored/Delivery.antt =====
-- What the loop has written when it returns.
use fyro_db.Prelude.{
  ℕ, zero, suc, ◌-◌, ◌≤◌, ◌<◌, ◌≡◌, refl, sym, ap, ◌∙◌, List, [], ◌∷◌, ◌++◌, leb, if◌then◌else◌,
  length, take, drop, arith, append_assoc, append-nil, take-append-drop, length-drop,
}
use fyro_db.Cluster.Transport.Vectored.{
  Answer, wrote, interrupted, failed, Status, done, write_zero, io_error, pending, concat,
  skip_empty, advance, on_answer, write_all_slices,
}
use mathlib.Core.Path.{subst}
use fyro_db.Prelude.{All, ◌⊎◌, inl, inr}

concat-skip_empty : (bufs : List (List ℕ)) → concat (skip_empty bufs) ≡ concat bufs
unfolding skip_empty
concat-skip_empty [] = refl
concat-skip_empty ([] ∷ bufs) = concat-skip_empty bufs
concat-skip_empty ((b ∷ buf) ∷ bufs) = refl

drop-append :
    (n : ℕ) (xs ys : List ℕ)
    → drop n (xs ++ ys) ≡ (if leb (length xs) n then drop (n - length xs) ys else drop n xs ++ ys)
drop-append n [] ys = ground arith
drop-append zero (x ∷ xs) ys = ground arith
drop-append (suc n) (x ∷ xs) ys = ground (arith, drop-append n xs ys)

-- Advancing by `n` leaves what follows the first `n` bytes.
concat-advance : (n : ℕ) (bufs : List (List ℕ)) → concat (advance n bufs) ≡ drop n (concat bufs)
unfolding advance
concat-advance zero [] = refl
concat-advance (suc n) [] = refl
concat-advance n (buf ∷ bufs) =
    ground (arith, drop-append n buf (concat bufs), concat-advance (n - length buf) bufs)

-- The writer got a first part of the buffers in order, and all of them if the loop returned `Ok`.
pub record Delivered (bufs : List (List ℕ)) (out : List ℕ) (result : Status × List ℕ) : Type 0 where
  pub sent : List ℕ
  pub left : List ℕ
  pub written : result.1 ≡ out ++ sent
  pub split : concat bufs ≡ sent ++ left
  pub whole : result.0 ≡ done → left ≡ []

nothing_sent :
    (bufs : List (List ℕ)) (out : List ℕ) (status : Status)
    → (status ≡ done → concat bufs ≡ [])
    → Delivered bufs out (status, out)
nothing_sent bufs out status h = record {
  sent = [];
  left = concat bufs;
  written = sym (append-nil out);
  split = refl;
  whole = h;
}

-- Going on behind `n` bytes that the writer took.
some_sent :
    (n : ℕ) (bufs : List (List ℕ)) (out : List ℕ) (result : Status × List ℕ)
    → Delivered (advance n bufs) (out ++ take n (concat bufs)) result
    → Delivered bufs out result
some_sent n bufs out result d = record {
  sent = take n (concat bufs) ++ d.sent;
  left = d.left;
  written = d.written ∙ append_assoc out (take n (concat bufs)) d.sent;
  split =
      sym (take-append-drop n (concat bufs))
      ∙ ap (◌++◌ (take n (concat bufs))) (sym (concat-advance n bufs) ∙ d.split)
      ∙ sym (append_assoc (take n (concat bufs)) d.sent d.left);
  whole = d.whole;
}

same_concat :
    (bufs bufs' : List (List ℕ)) (out : List ℕ) (result : Status × List ℕ)
    → concat bufs' ≡ concat bufs
    → Delivered bufs' out result
    → Delivered bufs out result
same_concat bufs bufs' out result e d = record {
  sent = d.sent;
  left = d.left;
  written = d.written;
  split = sym e ∙ d.split;
  whole = d.whole;
}

-- The buffers left after the empty ones are skipped.
left_cases :
    (bufs : List (List ℕ))
    → ((skip_empty bufs ≡ []) × (concat bufs ≡ []))
      ⊎ ((b : ℕ) × (buf : List ℕ) × (left : List (List ℕ)) × (skip_empty bufs ≡ (b ∷ buf) ∷ left)
          × (concat ((b ∷ buf) ∷ left) ≡ concat bufs))
unfolding skip_empty
left_cases [] = inl (refl, refl)
left_cases ([] ∷ bufs) = left_cases bufs
left_cases ((b ∷ buf) ∷ bufs) = inr (b, buf, bufs, refl, refl)

took_some :
    (n : ℕ) (bufs : List (List ℕ)) (out : List ℕ) (again : List (List ℕ) → List ℕ → Status × List ℕ)
    → 0 < n
    → on_answer (wrote n) bufs out again ≡ again (advance n bufs) (out ++ take n (concat bufs))
unfolding on_answer
took_some n bufs out again h = ground arith

on_answer-Delivered :
    (answer : Answer) (bufs : List (List ℕ)) (out : List ℕ)
    (again : List (List ℕ) → List ℕ → Status × List ℕ)
    → ((bufs : List (List ℕ)) (out : List ℕ) → Delivered bufs out (again bufs out))
    → Delivered bufs out (on_answer answer bufs out again)
unfolding on_answer
on_answer-Delivered (wrote zero) bufs out again h = nothing_sent bufs out write_zero (λ p. cc)
on_answer-Delivered (wrote (suc n)) bufs out again h =
    rw (took_some (suc n) bufs out again (omega arith))
      (some_sent (suc n) bufs out _ (h (advance (suc n) bufs) (out ++ take (suc n) (concat bufs))))
on_answer-Delivered interrupted bufs out again h = h bufs out
on_answer-Delivered failed bufs out again h = nothing_sent bufs out io_error (λ p. cc)

-- Whatever the writer answers, it holds a first part of the bytes of the buffers, in order and
-- none of them twice, and all of them if the loop returned `Ok`.
pub write_all_slices-Delivered :
    (answers : List Answer) (bufs : List (List ℕ)) (out : List ℕ)
    → Delivered bufs out (write_all_slices answers bufs out)
unfolding write_all_slices
write_all_slices-Delivered [] bufs out = elim (left_cases bufs) [
  | inl (e, empty) ↦ rw (e, write_all_slices) (nothing_sent bufs out done (λ _. empty))
  | inr (b, buf, left, e, _) ↦ rw (e, write_all_slices) (nothing_sent bufs out pending (λ p. cc))
]
write_all_slices-Delivered (answer ∷ answers) bufs out = elim (left_cases bufs) [
  | inl (e, empty) ↦ rw (e, write_all_slices) (nothing_sent bufs out done (λ _. empty))
  | inr (b, buf, left, e, same) ↦
      rw (e, write_all_slices)
        (same_concat _ _ _ _ same (
          on_answer-Delivered answer _ out (write_all_slices answers)
            (write_all_slices-Delivered answers)))
]

-- After `Ok` the writer holds all of the bytes.
pub write_all_slices_done :
    (answers : List Answer) (bufs : List (List ℕ)) (out out' : List ℕ)
    → write_all_slices answers bufs out ≡ (done, out')
    → out' ≡ out ++ concat bufs
write_all_slices_done answers bufs out out' e =
    let d = write_all_slices-Delivered answers bufs out in
    ground (arith, d.written, d.split, d.whole (ap (λ r. r.0) e), append-nil d.sent)

-- Answers that take at least one byte, or are interrupted, and how many of the first kind.
abbrev pub MakesProgress : Answer → Type 0
MakesProgress (wrote n) = 0 < n
MakesProgress interrupted = Unit
MakesProgress failed = ⊥

abbrev pub writes : List Answer → ℕ
writes [] = 0
writes (wrote n ∷ answers) = suc (writes answers)
writes (interrupted ∷ answers) = writes answers
writes (failed ∷ answers) = writes answers

concat_pos : (b : ℕ) (buf : List ℕ) (left : List (List ℕ)) → 0 < length (concat ((b ∷ buf) ∷ left))
concat_pos b buf left = omega arith

length-advance :
    (n : ℕ) (bufs : List (List ℕ)) → length (concat (advance n bufs)) ≡ length (concat bufs) - n
length-advance n bufs = ap length (concat-advance n bufs) ∙ length-drop n (concat bufs)

on_answer_returns :
    (answer : Answer) (bufs : List (List ℕ)) (out : List ℕ) (answers : List Answer)
    (again : List (List ℕ) → List ℕ → Status × List ℕ)
    → MakesProgress answer
    → ((bufs : List (List ℕ)) (out : List ℕ)
        → length (concat bufs) ≤ writes answers
        → (again bufs out).0 ≡ done)
    → length (concat bufs) ≤ writes (answer ∷ answers)
    → (on_answer answer bufs out again).0 ≡ done
unfolding on_answer
on_answer_returns (wrote n) bufs out answers again p h few =
    rw (took_some n bufs out again p) (h _ _ (omega (arith, length-advance n bufs)))
on_answer_returns interrupted bufs out answers again p h few = h bufs out few
on_answer_returns failed bufs out answers again p h few = absurd p

returns :
    (answers : List Answer) (bufs : List (List ℕ)) (out : List ℕ)
    → All MakesProgress answers
    → length (concat bufs) ≤ writes answers
    → (write_all_slices answers bufs out).0 ≡ done
unfolding write_all_slices
returns [] bufs out h few = elim (left_cases bufs) [
  | inl (e, empty) ↦ rw (e, write_all_slices)
  | inr (b, buf, left, e, same) ↦ absurd (omega (arith, ap length same))
]
returns (answer ∷ answers) bufs out h few = elim (left_cases bufs) [
  | inl (e, empty) ↦ rw (e, write_all_slices)
  | inr (b, buf, left, e, same) ↦
      rw (e, write_all_slices)
        (on_answer_returns answer ((b ∷ buf) ∷ left) out answers (write_all_slices answers) h.0
          (λ bufs out few. returns answers bufs out h.1 few)
          (subst (λ t. length t ≤ writes (answer ∷ answers)) (sym same) few))
]

-- If the writer never fails and takes a byte or more at each call that is not interrupted, then
-- as many such calls as there are bytes are enough: the loop returns `Ok`, and the writer holds
-- exactly the buffers' bytes behind what it held.
pub write_all_slices_total :
    (answers : List Answer) (bufs : List (List ℕ)) (out : List ℕ)
    → All MakesProgress answers
    → length (concat bufs) ≤ writes answers
    → write_all_slices answers bufs out ≡ (done, out ++ concat bufs)
write_all_slices_total answers bufs out h few =
    let d = write_all_slices-Delivered answers bufs out in
    let e = returns answers bufs out h few in
    ground (arith, d.written, d.split, d.whole e, append-nil d.sent)
