-- ===== src/Link/Frame.antt =====
-- protocol/c/src/rsm_link_frame.c and rsm_link_frame.h.
use Prim.Native.Nat.{bit_xor}
use rsmicro.Prelude.{
  ℕ, zero, suc, ◌+◌, ◌-◌, ◌/◌, ◌%◌, ◌^◌, ◌==◌, ltb, if◌then◌else◌, Bool, not, ◌&&◌, ◌||◌, [], ◌∷◌,
  ◌++◌, Option, none, some, length, take, drop,
}
use rsmicro.Core.Words.{Bytes, byte, u16, u32}

-- `rsm_link_status_t`
pub data LinkStatus : Type 0 where
  ok incomplete bad_frame bad_crc limit version : LinkStatus

abbrev pub header_size : ℕ
header_size = 24

abbrev pub min_frame_size : ℕ
min_frame_size = 28

abbrev pub max_frame_size : ℕ
max_frame_size = 1048576

abbrev pub max_payload_size : ℕ
max_payload_size = max_frame_size - min_frame_size

-- `rsm_link_frame_t`; `payload_length` is the payload's length.
pub record Frame : Type 0 where
  pub message_type : ℕ
  pub message_flags : ℕ
  pub request_id : ℕ
  pub sequence : ℕ
  pub header_flags : ℕ
  pub payload : Bytes

-- `p16` and `p32`: the bytes that they store.
abbrev pub p16 : ℕ → Bytes
p16 v = v % 2 ^ 8 ∷ v / 2 ^ 8 % 2 ^ 8 ∷ []

abbrev pub p32 : ℕ → Bytes
p32 v = v % 2 ^ 8 ∷ v / 2 ^ 8 % 2 ^ 8 ∷ v / 2 ^ 16 % 2 ^ 8 ∷ v / 2 ^ 24 % 2 ^ 8 ∷ []

-- The bit loop of `rsm_link_crc32c`, `n` rounds, and the loop over the bytes.
unfoldable pub crc_bits : ℕ → ℕ → ℕ
crc_bits zero c = c
crc_bits (suc n) c = crc_bits n (bit_xor (c / 2) (if c % 2 == 1 then 0x82f63b78 else 0))

unfoldable pub crc_bytes : ℕ → Bytes → ℕ
unfolding crc_bits
crc_bytes c [] = c
crc_bytes c (d ∷ ds) = crc_bytes (crc_bits 8 (bit_xor c d)) ds

unfoldable pub crc32c : Bytes → ℕ
unfolding crc_bytes
crc32c ds = bit_xor (crc_bytes 0xffffffff ds) 0xffffffff

-- The 24 bytes before the payload.
abbrev pub header : Frame → Bytes
header f =
    b'R' ∷ b'S' ∷ b'M' ∷ b'L' ∷ 1 ∷ 1 ∷ 0 ∷ f.header_flags ∷ p16 f.message_type
    ++ p16 f.message_flags
    ++ p32 f.request_id
    ++ p32 f.sequence
    ++ p32 (length f.payload)

-- `rsm_link_frame_encode` into a buffer of `cap` bytes: the bytes that are written.
unfoldable pub encode : Frame → ℕ → LinkStatus × Bytes
encode f cap =
    if ltb max_payload_size (length f.payload)
    then (limit, [])
    else if ltb cap (min_frame_size + length f.payload)
    then (limit, [])
    else (ok, (header f ++ f.payload) ++ p32 (crc32c (header f ++ f.payload)))

-- `memcmp(in, "RSML", 4) == 0`
abbrev pub has_magic : Bytes → Bool
has_magic x = byte x 0 == b'R' && byte x 1 == b'S' && byte x 2 == b'M' && byte x 3 == b'L'

-- `rsm_link_frame_decode` of the first `n` bytes. `in[7] & ~1u` is zero for 0 and 1 only.
unfoldable pub decode : Bytes → ℕ → LinkStatus × Option Frame
decode x n =
    if ltb n min_frame_size
    then (incomplete, none)
    else if not (has_magic x) || ltb 1 (byte x 7)
    then (bad_frame, none)
    else if not (byte x 4 == 1) || not (byte x 5 == 1)
    then (version, none)
    else if ltb max_payload_size (u32 x 20) || not (n == min_frame_size + u32 x 20)
    then (bad_frame, none)
    else if not (u32 x (24 + u32 x 20) == crc32c (take (24 + u32 x 20) x))
    then (bad_crc, none)
    else (
      ok,
      some (record {
        message_type = u16 x 8;
        message_flags = u16 x 10;
        request_id = u32 x 12;
        sequence = u32 x 16;
        header_flags = byte x 7;
        payload = take (u32 x 20) (drop 24 x);
      }),
    )
