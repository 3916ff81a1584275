-- ===== src/Cluster/Transport/Codec/RoundTrip.antt =====
-- Reading back what was written, and what the reader refuses.
use fyro_db.Prelude.{
  ℕ, ◌+◌, ◌^◌, ◌≤◌, ◌<◌, ◌≡◌, refl, ap, ◌∙◌, List, [], ◌∷◌, ◌++◌, arith, ◌==◌, if◌then◌else◌,
  length, to_be, from_be-to_be, read_exact-append, drop, get_or, AllBytes, append_assoc, append-nil,
  ltb, All, le→leb, ==_refl, drop-append_length, length-append,
}
use fyro_db.Cluster.Transport.Checksum.{checksum}
use fyro_db.Cluster.Transport.Checksum.Slicing.{checksum-eq-reference}
use fyro_db.Cluster.Transport.Vectored.{
  Answer, Status, done, write_zero, io_error, pending, concat, write_all_slices,
}
use fyro_db.Cluster.Transport.Vectored.Delivery.{
  write_all_slices_done, write_all_slices_total, MakesProgress, writes,
}
use fyro_db.Cluster.Transport.Codec.{
  MessageType, Frame, ok, err, ◌>>=◌, ◌>>◌, require, to_byte, try_from, hello, bad_checksum,
  payload_too_large, magic, version, prefix_bytes, encode_prefix, written, write_frame, read, slice,
  read_frame,
}

-- The ranges of the fields' machine types, and the payload within the limit.
pub record IsFrame (max_payload : ℕ) (frame : Frame) : Type 0 where
  pub flags : frame.flags < 256 ^ 2
  pub request_id : frame.request_id < 256 ^ 8
  pub source_id : frame.source_id < 256 ^ 8
  pub target_id : frame.target_id < 256 ^ 8
  pub epoch : frame.epoch < 256 ^ 8
  pub bytes : AllBytes frame.payload
  pub fits : length frame.payload ≤ max_payload

try_from-to_byte : (m : MessageType) → try_from (to_byte m) ≡ ok m
unfolding try_from to_byte
try_from-to_byte hello = refl
try_from-to_byte _ = refl

module _ (f : Frame) where
  pub length-prefix_bytes : length (prefix_bytes f) ≡ 48
  unfolding prefix_bytes to_be
  length-prefix_bytes = refl

  at_magic : slice 0 4 (prefix_bytes f) ≡ magic
  unfolding prefix_bytes to_be
  at_magic = refl

  at_version : get_or (prefix_bytes f) 4 0 ≡ version
  unfolding prefix_bytes to_be
  at_version = refl

  at_type : get_or (prefix_bytes f) 5 0 ≡ to_byte f.message_type
  unfolding prefix_bytes to_be
  at_type = refl

  at_flags : slice 6 2 (prefix_bytes f) ≡ to_be 2 f.flags
  unfolding prefix_bytes to_be
  at_flags = refl

  at_request : slice 8 8 (prefix_bytes f) ≡ to_be 8 f.request_id
  unfolding prefix_bytes to_be
  at_request = refl

  at_source : slice 16 8 (prefix_bytes f) ≡ to_be 8 f.source_id
  unfolding prefix_bytes to_be
  at_source = refl

  at_target : slice 24 8 (prefix_bytes f) ≡ to_be 8 f.target_id
  unfolding prefix_bytes to_be
  at_target = refl

  at_epoch : slice 32 8 (prefix_bytes f) ≡ to_be 8 f.epoch
  unfolding prefix_bytes to_be
  at_epoch = refl

  at_length : slice 40 4 (prefix_bytes f) ≡ to_be 4 (length f.payload)
  unfolding prefix_bytes to_be
  at_length = refl

  at_checksum : slice 44 4 (prefix_bytes f) ≡ to_be 4 (checksum f.payload)
  unfolding prefix_bytes to_be
  at_checksum = refl

pub read-append : (xs rest : List ℕ) (n : ℕ) → length xs ≡ n → read n (xs ++ rest) ≡ ok (xs, rest)
unfolding read
read-append xs rest n e = rw (← e, read_exact-append xs rest, read)

-- The reader on a prefix for `f` and any bytes behind it.
pub read_frame_prefix :
    (max_payload : ℕ) (f : Frame) (rest : List ℕ)
    → max_payload < 2 ^ 32
    → IsFrame max_payload f
    → read_frame max_payload (prefix_bytes f ++ rest) ≡ (do
      (payload, rest) ← read (length f.payload) rest
      require (checksum payload == checksum f.payload) bad_checksum
      ok (record f { payload = payload }, rest))
unfolding read_frame
read_frame_prefix max_payload f rest hm h =
    rw
      (
        read-append (prefix_bytes f) rest 48 (length-prefix_bytes f),
        at_magic f,
        at_version f,
        at_type f,
        try_from-to_byte f.message_type,
        at_length f,
        at_flags f,
        at_request f,
        at_source f,
        at_target f,
        at_epoch f,
        at_checksum f,
      )
      (rw (
        from_be-to_be 4 (length f.payload) (omega arith),
        from_be-to_be 4 (checksum f.payload) (checksum-eq-reference f.payload h.bytes).1,
        from_be-to_be 2 f.flags h.flags,
        from_be-to_be 8 f.request_id h.request_id,
        from_be-to_be 8 f.source_id h.source_id,
        from_be-to_be 8 f.target_id h.target_id,
        from_be-to_be 8 f.epoch h.epoch,
        le→leb _ _ h.fits,
      ))

-- A frame read back from its bytes, whatever follows them.
pub read_frame-bytes :
    (max_payload : ℕ) (f : Frame) (rest : List ℕ)
    → max_payload < 2 ^ 32
    → IsFrame max_payload f
    → read_frame max_payload (prefix_bytes f ++ (f.payload ++ rest)) ≡ ok (f, rest)
read_frame-bytes max_payload f rest hm h =
    read_frame_prefix max_payload f (f.payload ++ rest) hm h
    ∙ rw (read-append f.payload rest (length f.payload) refl, ==_refl (checksum f.payload))

pub written_done :
    (result : Status × List ℕ) (out' : List ℕ) → written result ≡ ok out' → result ≡ (done, out')
unfolding written
written_done (done, out) out' e = ground arith
written_done (write_zero, out) out' e = cc
written_done (io_error, out) out' e = cc
written_done (pending, out) out' e = cc

write_frame_done :
    (max_payload : ℕ) (answers : List Answer) (out out' : List ℕ) (f : Frame)
    → write_frame max_payload answers out f ≡ ok out'
    → out' ≡ out ++ (prefix_bytes f ++ f.payload)
write_frame_done max_payload answers out out' f e =
    write_all_slices_done answers slices out out' (written_done _ out' sent)
    ∙ ap (λ t. out ++ (prefix_bytes f ++ t)) (append-nil f.payload)
  where
    slices : List (List ℕ)
    slices = prefix_bytes f ∷ f.payload ∷ []

    sent : written (write_all_slices answers slices out) ≡ ok out'
    sent = unfold write_frame encode_prefix in ground arith

-- Whatever pieces the writer takes the frame in, once `write_frame` returns `Ok` the bytes behind
-- what the writer held are read back as the same frame, and the reader stops where they end. The
-- fields are in the range of their types, and the limit is a `u32`.
pub read_frame-write_frame :
    (max_payload : ℕ) (answers : List Answer) (out out' rest : List ℕ) (f : Frame)
    → max_payload < 2 ^ 32
    → IsFrame max_payload f
    → write_frame max_payload answers out f ≡ ok out'
    → read_frame max_payload (drop (length out) (out' ++ rest)) ≡ ok (f, rest)
read_frame-write_frame max_payload answers out out' rest f hm h e =
    ap (read_frame max_payload) behind ∙ read_frame-bytes max_payload f rest hm h
  where
    behind : drop (length out) (out' ++ rest) ≡ prefix_bytes f ++ (f.payload ++ rest)
    behind =
        ap (λ t. drop (length out) (t ++ rest)) (write_frame_done max_payload answers out out' f e)
        ∙ ap (drop (length out)) (append_assoc out (prefix_bytes f ++ f.payload) rest)
        ∙ drop-append_length out _
        ∙ append_assoc (prefix_bytes f) f.payload rest

-- The writer returns `Ok` for every frame within the limit if it makes progress often enough, and
-- refuses a larger payload before it writes anything.
pub write_frame_total :
    (max_payload : ℕ) (answers : List Answer) (out : List ℕ) (f : Frame)
    → All MakesProgress answers
    → 48 + length f.payload ≤ writes answers
    → write_frame max_payload answers out f ≡ (
        if ltb max_payload (length f.payload)
        then err (payload_too_large (length f.payload) max_payload)
        else ok (out ++ (prefix_bytes f ++ f.payload)))
write_frame_total max_payload answers out f p few =
    unfold write_frame encode_prefix written in ground (arith, total, append-nil f.payload)
  where
    enough : length (concat (prefix_bytes f ∷ f.payload ∷ [])) ≤ writes answers
    enough = omega (
      arith,
      length-append (prefix_bytes f) (f.payload ++ []),
      length-prefix_bytes f,
      ap length (append-nil f.payload),
    )

    total :
        write_all_slices answers (prefix_bytes f ∷ f.payload ∷ []) out
        ≡ (done, out ++ (prefix_bytes f ++ (f.payload ++ [])))
    total = write_all_slices_total answers (prefix_bytes f ∷ f.payload ∷ []) out p enough
