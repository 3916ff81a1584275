-- ===== src/Cluster/Transport/Codec/Batch.antt =====
-- Many frames in one vectored write.
use fyro_db.Prelude.{
  ℕ, zero, suc, ◌^◌, ◌<◌, ◌≡◌, refl, ap, ◌∙◌, List, [], ◌∷◌, ◌++◌, arith, length, drop,
  append_assoc, All, drop-append_length,
}
use fyro_db.Cluster.Transport.Vectored.{Answer, concat, write_all_slices}
use fyro_db.Cluster.Transport.Vectored.Delivery.{write_all_slices_done}
use fyro_db.Cluster.Transport.Codec.{
  Frame, Result, ok, ◌>>=◌, prefix_bytes, encode_prefix, encode_all, read_frame, write_frames,
  written,
}
use fyro_db.Cluster.Transport.Codec.RoundTrip.{IsFrame, read_frame-bytes, written_done}

-- The reader called once for each frame.
unfoldable pub read_frames : ℕ → ℕ → List ℕ → Result (List Frame × List ℕ)
read_frames max_payload zero input = ok ([], input)
read_frames max_payload (suc n) input = do
  (frame, rest) ← read_frame max_payload input
  (frames, rest) ← read_frames max_payload n rest
  ok (frame ∷ frames, rest)

frame_slices : List Frame → List (List ℕ)
frame_slices [] = []
frame_slices (f ∷ fs) = prefix_bytes f ∷ f.payload ∷ frame_slices fs

encode_all_lem :
    (max_payload : ℕ) (fs : List Frame)
    → All (IsFrame max_payload) fs
    → encode_all max_payload fs ≡ ok (frame_slices fs)
unfolding encode_all frame_slices encode_prefix
encode_all_lem max_payload [] h = refl
encode_all_lem max_payload (f ∷ fs) (hf, h) =
    rw (encode_all_lem max_payload fs h) (ground (arith, hf.fits))

read_frames_lem :
    (max_payload : ℕ) (fs : List Frame) (rest : List ℕ)
    → max_payload < 2 ^ 32
    → All (IsFrame max_payload) fs
    → read_frames max_payload (length fs) (concat (frame_slices fs) ++ rest) ≡ ok (fs, rest)
unfolding read_frames frame_slices
read_frames_lem max_payload [] rest hm h = refl
read_frames_lem max_payload (f ∷ fs) rest hm (hf, h) = rw (
  append_assoc (prefix_bytes f) (f.payload ++ concat (frame_slices fs)) rest,
  append_assoc f.payload (concat (frame_slices fs)) rest,
  read_frame-bytes max_payload f (concat (frame_slices fs) ++ rest) hm hf,
  read_frames_lem max_payload fs rest hm h,
)

-- Once `write_frames` returns `Ok`, reading as many frames behind what the writer held gives the
-- frames back in order, and leaves what follows.
pub read_frames-write_frames :
    (max_payload : ℕ) (answers : List Answer) (out out' rest : List ℕ) (fs : List Frame)
    → max_payload < 2 ^ 32
    → All (IsFrame max_payload) fs
    → write_frames max_payload answers out fs ≡ ok out'
    → read_frames max_payload (length fs) (drop (length out) (out' ++ rest)) ≡ ok (fs, rest)
read_frames-write_frames max_payload answers out out' rest fs hm h e =
    ap (read_frames max_payload (length fs)) behind ∙ read_frames_lem max_payload fs rest hm h
  where
    sent : written (write_all_slices answers (frame_slices fs) out) ≡ ok out'
    sent = unfold write_frames in ground (arith, encode_all_lem max_payload fs h)

    behind : drop (length out) (out' ++ rest) ≡ concat (frame_slices fs) ++ rest
    behind =
        ap (λ t. drop (length out) (t ++ rest))
          (write_all_slices_done answers (frame_slices fs) out out' (written_done _ out' sent))
        ∙ ap (drop (length out)) (append_assoc out (concat (frame_slices fs)) rest)
        ∙ drop-append_length out _
