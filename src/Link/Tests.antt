-- ===== src/Link/Tests.antt =====
-- Frames and streams at concrete bytes.
use rsmicro.Prelude.{◌≡◌, refl, ap, false, some, none, [], ◌∷◌, ◌++◌, length, arith, take, drop}
use rsmicro.Core.Words.{Bytes}
use rsmicro.Link.Frame.{ok, incomplete, Frame, encode, decode, max_frame_size, crc32c}
use rsmicro.Link.Stream.{Stream, feed, feed_held, consume}
use rsmicro.Link.RoundTrip.{IsEncodable, decode-encode}
use rsmicro.Link.Reassembly.{feed-feed, feed-image}

-- a WRITE_TAG message
abbrev frame : Frame
frame = record {
  message_type = 54;
  message_flags = 0;
  request_id = 7;
  sequence = 1;
  header_flags = 0;
  payload = 9 ∷ 8 ∷ 255 ∷ [];
}

-- the check value of CRC-32C
crc_check : crc32c (b'1' ∷ b'2' ∷ b'3' ∷ b'4' ∷ b'5' ∷ b'6' ∷ b'7' ∷ b'8' ∷ b'9' ∷ []) ≡ 0xe3069283
unfolding crc32c
crc_check = refl

frame-IsEncodable : IsEncodable frame
frame-IsEncodable = omega arith

decode-encode_example :
    let (status, written) = encode frame 64 in
    (status ≡ ok) × (decode written (length written) ≡ (ok, some frame))
decode-encode_example = decode-encode frame 64 frame-IsEncodable (omega arith)

abbrev stream : Stream
stream = record { capacity = 128; held = []; failed = false }

abbrev part : Bytes
part = b'R' ∷ b'S' ∷ b'M' ∷ b'L' ∷ []

waits : feed stream part ≡ (incomplete, none, record stream { held = part })
unfolding feed feed_held
waits = refl

feed-feed_example : feed (feed stream part).2 (1 ∷ 1 ∷ []) ≡ feed stream (part ++ 1 ∷ 1 ∷ [])
unfolding waits
feed-feed_example =
    feed-feed stream part (1 ∷ 1 ∷ []) refl (omega arith) (ap (λ r. r.0) waits)
      (ap (λ r. r.2.failed) waits)

-- the first twenty bytes of a frame, and the others with the beginning of the next frame
abbrev begun : Stream
begun = record stream { held = take 20 (encode frame max_frame_size).1 }

abbrev rest : Bytes
rest = drop 20 (encode frame max_frame_size).1 ++ part

feed-image_example :
    let (status, out, s) = feed begun rest in
    (status ≡ ok) × (out ≡ some frame) × (consume s frame ≡ record stream { held = part })
unfolding encode crc32c
feed-image_example = feed-image begun rest frame part frame-IsEncodable refl (omega arith) refl
