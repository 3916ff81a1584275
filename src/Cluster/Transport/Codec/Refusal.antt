-- ===== src/Cluster/Transport/Codec/Refusal.antt =====
-- What the reader refuses: a stream that ends inside a frame, and a payload that was changed.
use fyro_db.Prelude.{
  ℕ, zero, suc, ◌+◌, ◌-◌, ◌^◌, ◌≤◌, ◌<◌, ◌≡◌, ap, ◌∙◌, true, false, List, [], ◌∷◌, ◌++◌, arith, ltb,
  ◌==◌, if◌then◌else◌, length, read_exact_short, take, length-take, Bool-cases, inl, inr, ltb→lt,
}
use native.Mathlib.Nat.{sub-zero}
use fyro_db.Cluster.Transport.Checksum.{checksum}
use fyro_db.Cluster.Transport.Codec.{
  Frame, ok, err, unexpected_eof, bad_checksum, prefix_bytes, read, read_frame,
}
use fyro_db.Cluster.Transport.Codec.RoundTrip.{
  IsFrame, length-prefix_bytes, read_frame_prefix, read-append,
}

read_short : (n : ℕ) (input : List ℕ) → length input < n → read n input ≡ err unexpected_eof
unfolding read
read_short n input h = rw (read_exact_short n input h, read)

take-append_more :
    (n : ℕ) (xs ys : List ℕ) → length xs ≤ n → take n (xs ++ ys) ≡ xs ++ take (n - length xs) ys
take-append_more n [] ys h = rw sub-zero
take-append_more zero (x ∷ xs) ys h = absurd (omega arith)
take-append_more (suc n) (x ∷ xs) ys h =
    ap (◌∷◌ x) (take-append_more n xs ys (omega arith) ∙ ap (λ t. xs ++ take t ys) (omega arith))

-- A stream that ends inside a written frame is refused as ended, wherever it is cut.
pub read_frame_truncated :
    (max_payload n : ℕ) (f : Frame)
    → max_payload < 2 ^ 32
    → IsFrame max_payload f
    → n < 48 + length f.payload
    → read_frame max_payload (take n (prefix_bytes f ++ f.payload)) ≡ err unexpected_eof
read_frame_truncated max_payload n f hm h cut = elim (Bool-cases (ltb n 48)) [
  | inl short ↦
      unfold read_frame in rw (read_short 48 (take n (prefix_bytes f ++ f.payload)) (header short))
  | inr long ↦ rw (take-append_more n (prefix_bytes f) f.payload (behind long)) (
      read_frame_prefix max_payload f _ hm h
      ∙ rw (
          read_short (length f.payload) (take (n - length (prefix_bytes f)) f.payload) (body long)))
]
  where
    header : ltb n 48 ≡ true → length (take n (prefix_bytes f ++ f.payload)) < 48
    header short = omega (arith, length-take n (prefix_bytes f ++ f.payload), ltb→lt n 48 short)

    behind : ltb n 48 ≡ false → length (prefix_bytes f) ≤ n
    behind long = ground (arith, length-prefix_bytes f)

    body :
        ltb n 48 ≡ false → length (take (n - length (prefix_bytes f)) f.payload) < length f.payload
    body long =
        ground (arith, length-prefix_bytes f, length-take (n - length (prefix_bytes f)) f.payload)

-- Behind an intact prefix, other bytes of the payload's length are refused unless they have the
-- payload's checksum, and are then taken for the payload.
pub read_frame_corrupt :
    (max_payload : ℕ) (f : Frame) (other rest : List ℕ)
    → max_payload < 2 ^ 32
    → IsFrame max_payload f
    → length other ≡ length f.payload
    → read_frame max_payload (prefix_bytes f ++ (other ++ rest)) ≡ (
        if checksum other == checksum f.payload
        then ok (record f { payload = other }, rest)
        else err bad_checksum)
read_frame_corrupt max_payload f other rest hm h same =
    read_frame_prefix max_payload f (other ++ rest) hm h
    ∙ rw (read-append other rest (length f.payload) same) (ground arith)
