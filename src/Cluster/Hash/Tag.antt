-- ===== src/Cluster/Hash/Tag.antt =====
-- Which bytes of a key are hashed, and the range of the slot.
use native.Mathlib.Nat.{mod-lt, suc-add}
use fyro_db.Prelude.{
  ℕ, zero, suc, ◌+◌, ◌<◌, ◌≡◌, ◌≢◌, refl, ap, ◌∙◌, Option, none, some, List, [], ◌∷◌, ◌++◌, arith,
  length, get_elem?, take, drop, All, Option-cases, inl, inr, take-append_length, lt→ltb,
}
use fyro_db.Cluster.Hash.{hash_slots, new_slot, close_tag, open_tag, hashtag, hash_slot, crc16}

-- What `memchr` documents: the position of the first occurrence, if there is one.
pub record FindsFirst (memchr : ℕ → List ℕ → Option ℕ) : Type 0 where
  pub found :
      (c : ℕ) (bytes : List ℕ) (i : ℕ)
      → memchr c bytes ≡ some i
      → (get_elem? bytes i ≡ some c) × All (λ b. b ≢ c) (take i bytes)
  pub missing : (c : ℕ) (bytes : List ℕ) → memchr c bytes ≡ none → All (λ b. b ≢ c) bytes

first_unique :
    (c : ℕ) (pre post : List ℕ) (i : ℕ)
    → All (λ b. b ≢ c) pre
    → get_elem? (pre ++ c ∷ post) i ≡ some c
    → All (λ b. b ≢ c) (take i (pre ++ c ∷ post))
    → i ≡ length pre
first_unique c [] post zero h e a = refl
first_unique c [] post (suc i) h e a = absurd (a.0 refl)
first_unique c (x ∷ pre) post zero h e a = absurd (h.0 (ground arith))
first_unique c (x ∷ pre) post (suc i) h e a = ap suc (first_unique c pre post i h.1 e a.1)

not-All : (c : ℕ) (pre post : List ℕ) → All (λ b. b ≢ c) (pre ++ c ∷ post) → ⊥
not-All c [] post a = a.0 refl
not-All c (x ∷ pre) post a = not-All c pre post a.1

absent : (c : ℕ) (bytes : List ℕ) (i : ℕ) → All (λ b. b ≢ c) bytes → get_elem? bytes i ≡ some c → ⊥
absent c [] i a e = cc
absent c (x ∷ bytes) zero a e = a.0 (ground arith)
absent c (x ∷ bytes) (suc i) a e = absent c bytes i a.1 e

drop_open : (pre rest : List ℕ) → drop (length pre + 1) (pre ++ b'{' ∷ rest) ≡ rest
drop_open [] rest = refl
drop_open (x ∷ pre) rest = rw suc-add (drop_open pre rest)

close_tag_lem :
    (memchr : ℕ → List ℕ → Option ℕ) (key tag post : List ℕ)
    → 0 < length tag
    → close_tag memchr key (tag ++ post) (some (length tag)) ≡ tag
unfolding close_tag
close_tag_lem memchr key tag post h = ground (arith, take-append_length tag post)

module _ {memchr : ℕ → List ℕ → Option ℕ} (first : FindsFirst memchr) where
  memchr_first :
      (c : ℕ) (pre post : List ℕ)
      → All (λ b. b ≢ c) pre
      → memchr c (pre ++ c ∷ post) ≡ some (length pre)
  memchr_first c pre post h = elim (Option-cases (memchr c (pre ++ c ∷ post))) [
    | inl e ↦ absurd (not-All c pre post (first.missing c _ e))
    | inr (i, e) ↦
        let (here, before) = first.found c _ i e in
        e ∙ ap some (first_unique c pre post i h here before)
  ]

  memchr_absent : (c : ℕ) (bytes : List ℕ) → All (λ b. b ≢ c) bytes → memchr c bytes ≡ none
  memchr_absent c bytes h = elim (Option-cases (memchr c bytes)) [
    | inl e ↦ e
    | inr (i, e) ↦ absurd (absent c bytes i h (first.found c bytes i e).0)
  ]

  hashtag_open :
      (pre rest : List ℕ)
      → All (λ b. b ≢ b'{') pre
      → hashtag memchr (pre ++ b'{' ∷ rest)
        ≡ close_tag memchr (pre ++ b'{' ∷ rest) rest (memchr b'}' rest)
  unfolding hashtag open_tag
  hashtag_open pre rest h = rw (memchr_first b'{' pre rest h, drop_open pre rest)

  -- A closed tag that is not empty is what is hashed, whatever stands around it: with no opening
  -- brace before it and no closing brace in it, two keys with the same tag have the same slot.
  pub hash_slot-tag :
      (pre post pre' post' : List ℕ) (b : ℕ) (tag : List ℕ)
      → All (λ x. x ≢ b'{') pre
      → All (λ x. x ≢ b'{') pre'
      → All (λ x. x ≢ b'}') (b ∷ tag)
      → (hashtag memchr (pre ++ b'{' ∷ ((b ∷ tag) ++ b'}' ∷ post)) ≡ b ∷ tag)
        × (hash_slot memchr (pre ++ b'{' ∷ ((b ∷ tag) ++ b'}' ∷ post))
            ≡ hash_slot memchr (pre' ++ b'{' ∷ ((b ∷ tag) ++ b'}' ∷ post')))
  unfolding hash_slot
  hash_slot-tag pre post pre' post' b tag hp hp' ht =
      (tagged pre post hp, rw (tagged pre post hp, tagged pre' post' hp'))
    where
      tagged :
          (pre post : List ℕ)
          → All (λ x. x ≢ b'{') pre
          → hashtag memchr (pre ++ b'{' ∷ ((b ∷ tag) ++ b'}' ∷ post)) ≡ b ∷ tag
      tagged pre post hp =
          hashtag_open pre ((b ∷ tag) ++ b'}' ∷ post) hp
          ∙ rw (memchr_first b'}' (b ∷ tag) post ht)
              (close_tag_lem memchr _ (b ∷ tag) _ (omega arith))

  -- Without an opening brace, without a closing one behind the first opening one, or with an
  -- empty tag, the whole key is hashed.
  pub hashtag_whole :
      (pre rest post : List ℕ)
      → All (λ x. x ≢ b'{') pre
      → All (λ x. x ≢ b'}') rest
      → (hashtag memchr pre ≡ pre)
        × (hashtag memchr (pre ++ b'{' ∷ rest) ≡ pre ++ b'{' ∷ rest)
        × (hashtag memchr (pre ++ b'{' ∷ b'}' ∷ post) ≡ pre ++ b'{' ∷ b'}' ∷ post)
  unfolding hashtag open_tag close_tag
  hashtag_whole pre rest post hp hr = (
    rw (memchr_absent b'{' pre hp),
    hashtag_open pre rest hp ∙ rw (memchr_absent b'}' rest hr),
    hashtag_open pre (b'}' ∷ post) hp ∙ rw (memchr_first b'}' [] post tt),
  )

-- Every key has a slot that `Slot::new` accepts, whatever `memchr` answers.
pub new_slot-hash_slot :
    (memchr : ℕ → List ℕ → Option ℕ) (key : List ℕ)
    → new_slot (hash_slot memchr key).value ≡ some (hash_slot memchr key)
unfolding new_slot hash_slot
new_slot-hash_slot memchr key =
    rw (lt→ltb _ _ (mod-lt (crc16 (hashtag memchr key)) {m = hash_slots} (omega arith)))
