-- ===== src/Cluster/Transport/Codec/Tests.antt =====
-- The frame of the repository's tests, sent in pieces, and the theorems about it.
use fyro_db.Prelude.{
  bit_xor, ℕ, ◌^◌, ◌<◌, ◌≡◌, refl, List, [], ◌∷◌, ◌++◌, arith, drop, codes, if◌then◌else◌, All,
  to_be, replicate, ◌==◌,
}
use fyro_db.Cluster.Transport.Checksum.{
  checksum, crc32_chunks, crc32_chunk, crc32_remainder, crc32_byte, crc32_table, not32,
}
use fyro_db.Cluster.Transport.Checksum.Bitwise.{crc32, checksum-crc32}
use fyro_db.Cluster.Transport.Vectored.{
  Answer, wrote, interrupted, on_answer, skip_empty, advance, write_all_slices,
}
use fyro_db.Cluster.Transport.Vectored.Delivery.{MakesProgress}
use fyro_db.Cluster.Transport.Codec.{
  Frame, ping, ok, err, bad_checksum, prefix_bytes, encode_prefix, write_frame, encode_all,
  write_frames, read_frame,
}
use fyro_db.Cluster.Transport.Codec.RoundTrip.{IsFrame, read_frame-write_frame}
use fyro_db.Cluster.Transport.Codec.Refusal.{read_frame_corrupt}

abbrev hello : Frame
hello = record {
  message_type = ping;
  flags = 7;
  request_id = 11;
  source_id = 12;
  target_id = 13;
  epoch = 14;
  payload = codes "hello";
}

hello-IsFrame : IsFrame 1024 hello
hello-IsFrame = omega arith

-- The writer takes the frame in three pieces and is interrupted once.
abbrev pieces : List Answer
pieces = wrote 40 ∷ interrupted ∷ wrote 9 ∷ wrote 4 ∷ []

hello_sent : write_frame 1024 pieces (9 ∷ []) hello ≡ ok (9 ∷ (prefix_bytes hello ++ codes "hello"))
unfolding write_frame encode_prefix write_all_slices on_answer skip_empty advance prefix_bytes to_be
hello_sent = refl

checksum_vector : checksum (codes "123456789") ≡ 0xcbf4_3926
unfolding checksum crc32_chunks crc32_chunk crc32_remainder crc32_byte crc32_table not32
checksum_vector = refl

checksum-crc32_example :
    (checksum (codes "123456789") ≡ bit_xor (crc32 0xffff_ffff (codes "123456789")) 0xffff_ffff)
    × (checksum (codes "123456789") < 2 ^ 32)
checksum-crc32_example = checksum-crc32 (codes "123456789") (omega arith)

read_frame-write_frame_example :
    read_frame 1024 (drop 1 ((9 ∷ (prefix_bytes hello ++ codes "hello")) ++ codes "next"))
    ≡ ok (hello, codes "next")
read_frame-write_frame_example =
    read_frame-write_frame 1024 pieces (9 ∷ []) (9 ∷ (prefix_bytes hello ++ codes "hello"))
      (codes "next") hello (omega arith) hello-IsFrame hello_sent

ones-MakesProgress : All MakesProgress (replicate 53 (wrote 1))
ones-MakesProgress = omega arith

read_frame_corrupt_example : read_frame 1024 (prefix_bytes hello ++ (codes "hellp" ++ [])) ≡ (
    if checksum (codes "hellp") == checksum (codes "hello")
    then ok (record hello { payload = codes "hellp" }, [])
    else err bad_checksum)
read_frame_corrupt_example =
    read_frame_corrupt 1024 hello (codes "hellp") [] (omega arith) hello-IsFrame (omega arith)

abbrev both : List ℕ
both = (prefix_bytes hello ++ codes "hello") ++ (prefix_bytes hello ++ codes "hello")

both_sent : write_frames 1024 (wrote 100 ∷ wrote 6 ∷ []) [] (hello ∷ hello ∷ []) ≡ ok both
unfolding write_frames encode_all encode_prefix write_all_slices on_answer skip_empty advance
    prefix_bytes to_be
both_sent = refl
