-- ===== src/Core/Image/Validate.antt =====
-- `rsm_runtime_validate_image`.
use Prim.Native.Nat.{bit_xor}
use rsmicro.Prelude.{
  ℕ, zero, suc, ◌+◌, ◌-◌, ◌*◌, ◌/◌, ◌%◌, ◌^◌, ◌==◌, ltb, leb, if◌then◌else◌, Bool, true, false, not,
  ◌&&◌, ◌||◌, none, some, [], ◌∷◌, List, take, drop,
}
use rsmicro.Core.Names.{profile_id}
use rsmicro.Core.Words.{Bytes, byte, u16, u32, u32_max}
use rsmicro.Core.Types.{
  Status, Result, ret, err, bad_image, bad_crc, unsupported_image_version, unsupported_profile,
  unsupported_abi,
}
use rsmicro.Core.Image.Sections.{size_add, size_mul, header_bytes, descriptor_bytes, sections}
use rsmicro.Core.Image.Code.{CodeState, check_code}
use rsmicro.Core.Image.Rungs.{rung_boundaries_ok}

-- `rsm_image_info_t`
pub record ImageInfo : Type 0 where
  pub major : ℕ
  pub minor : ℕ
  pub profile_id : ℕ
  pub instruction_abi : ℕ
  pub section_count : ℕ
  pub image_size : ℕ
  pub tag_count : ℕ
  pub instruction_count : ℕ
  pub rung_count : ℕ

-- `if (...) return status;`
infixl 5 ◌>>=◌
abbrev pub ◌>>=◌ {ℓ κ} : {A : Type ℓ} {B : Type κ} → Result A → (A → Result B) → Result B
ret a >>= k = k a
err st >>= k = err st

abbrev pub require : Bool → Status → Result (Unit {0})
require c st = if c then ret tt else err st

-- The bit loop of the image's CRC, `n` rounds, and the loop over the bytes.
unfoldable pub crc_bits : ℕ → ℕ → ℕ
crc_bits zero c = c
crc_bits (suc n) c = crc_bits n (bit_xor (c / 2) (if c % 2 == 1 then 0xedb88320 else 0))

-- the bytes from index `k` on; those of the CRC itself count as 0
unfoldable pub crc_bytes : ℕ → ℕ → Bytes → ℕ
crc_bytes c k [] = c
crc_bytes c k (d ∷ ds) =
    let b = if leb 68 k && ltb k 72 then 0 else d in crc_bytes (crc_bits 8 (bit_xor c b)) (k + 1) ds

-- `~c`
unfoldable pub image_crc : Bytes → ℕ → ℕ
image_crc x n = bit_xor (crc_bytes u32_max 0 (take n x)) u32_max

-- the three fields of descriptor `i`
abbrev pub kind_of : Bytes → ℕ → ℕ
kind_of x i = u16 x (header_bytes + i * descriptor_bytes)

abbrev pub offset_of : Bytes → ℕ → ℕ
offset_of x i = u32 x (header_bytes + i * descriptor_bytes + 4)

abbrev pub length_of : Bytes → ℕ → ℕ
length_of x i = u32 x (header_bytes + i * descriptor_bytes + 8)

-- Descriptor `i` has another kind than the `left` descriptors from `j` on, and its section does not
-- overlap with theirs. The sums are uint32_t.
unfoldable pub apart : Bytes → ℕ → ℕ → ℕ → Bool
apart x i zero j = true
apart x i (suc left) j =
    not (kind_of x i == kind_of x j)
    && not (
        ltb (offset_of x i) ((offset_of x j + length_of x j) % 2 ^ 32)
        && ltb (offset_of x j) ((offset_of x i + length_of x i) % 2 ^ 32))
    && apart x i left (j + 1)

-- The `left` descriptors from `i` on, out of `count`.
unfoldable pub descriptors_ok : Bytes → ℕ → ℕ → ℕ → ℕ → Bool
descriptors_ok x n count zero i = true
descriptors_ok x n count (suc left) i =
    leb 1 (kind_of x i)
    && leb (kind_of x i) 16
    && leb (header_bytes + count * descriptor_bytes) (offset_of x i)
    && leb (offset_of x i) n
    && leb (length_of x i) (n - offset_of x i)
    && apart x i i 0
    && descriptors_ok x n count left (i + 1)

-- A section that is a 32-bit count and as many records of `size` bytes.
unfoldable pub table_section : Bytes → ℕ → ℕ → ℕ → Result Bytes
table_section x n kind size = elim (sections x n kind) [
  | none ↦ err bad_image
  | some s ↦ if ltb s.1 4 then err bad_image else elim (size_mul (u32 (drop s.0 x) 0) size) [
    | none ↦ err bad_image
    | some bytes ↦ elim (size_add 4 bytes) [
      | none ↦ err bad_image
      | some total ↦ if s.1 == total then ret (drop s.0 x) else err bad_image
    ]
  ]
]

-- The `left` records of the tag section from number `i` on.
unfoldable pub tags_ok : Bytes → ℕ → ℕ → Bool
tags_ok tags zero i = true
tags_ok tags (suc left) i =
    let t = 4 + i * 20 in
    leb 1 (byte tags t)
    && leb (byte tags t) 5
    && leb (byte tags (t + 1)) 2
    && byte tags (t + 3) == 0
    && tags_ok tags left (i + 1)

-- The `left` records of the rung section from number `i` on: the first instruction of the next rung
-- is `expected`, and the routine before was `previous`.
unfoldable pub rung_table_ok : Bytes → ℕ → ℕ → ℕ → ℕ → ℕ → Bool
rung_table_ok rungs ic zero i expected previous = expected == ic
rung_table_ok rungs ic (suc left) i expected previous =
    let r = 4 + i * 12 in
    let routine = u32 rungs r in
    let first = u32 rungs (r + 4) in
    let count = u32 rungs (r + 8) in
    not (routine == u32_max)
    && (if i == 0 then routine == 0 else routine == previous || routine == (previous + 1) % 2 ^ 32)
    && first == expected
    && not (count == 0)
    && leb count ((ic + 2 ^ 32 - first) % 2 ^ 32)
    && rung_table_ok rungs ic left (i + 1) ((expected + count) % 2 ^ 32) routine

-- the code section: its bytes and its size
unfoldable pub code_section : Bytes → ℕ → Result (Bytes × ℕ)
code_section x n = elim (sections x n 8) [ none ↦ err bad_image | some s ↦ ret (drop s.0 x, s.1) ]

abbrev pub zeros : ℕ → List ℕ
zeros zero = []
zeros (suc n) = 0 ∷ zeros n

abbrev pub fresh_code_state : CodeState
fresh_code_state = record {
  depth = 0;
  lane_open = zeros 33;
  lane_count = zeros 33;
  previous_slot = 0;
  have_slot = false;
}

-- The checks up to the CRC. RSM1 is the magic number.
unfoldable pub check_header : Bytes → ℕ → Result (Unit {0})
check_header x n =
    if ltb n header_bytes
      || not (byte x 0 == b'R' && byte x 1 == b'S' && byte x 2 == b'M' && byte x 3 == b'1')
    then err bad_image
    else if not (byte x 4 == 2)
    then err unsupported_image_version
    else if not (u16 x 6 == header_bytes) || not (u32 x 8 == n)
    then err bad_image
    else if not (u32 x 12 == profile_id)
    then err unsupported_profile
    else if not (u16 x 16 == 2)
    then err unsupported_abi
    else if not (u16 x 18 == 16) || ltb (n - header_bytes) (u16 x 18 * descriptor_bytes)
    then err bad_image
    else if not (descriptors_ok x n (u16 x 18) (u16 x 18) 0)
    then err bad_image
    else if not (image_crc x n == u32 x 68)
    then err bad_crc
    else ret tt

-- The rung section `rungs` of code with `ic` instructions.
abbrev pub rungs_ok : Bytes → Bytes × ℕ → ℕ → Bool
rungs_ok rungs code ic =
    rung_table_ok rungs ic (u32 rungs 0) 0 0 u32_max
    && not (not (ic == 0) && u32 rungs 0 == 0)
    && rung_boundaries_ok code.0 code.1 rungs

unfoldable pub validate_image : Bytes → ℕ → Result ImageInfo
validate_image x n = do
  h ← check_header x n
  tags ← table_section x n 15 20
  t ← require (tags_ok tags (u32 tags 0) 0) bad_image
  code ← code_section x n
  ic ← check_code tags (u32 tags 0) code.0 code.1 code.1 0 fresh_code_state 0
  rungs ← table_section x n 16 12
  r ← require (rungs_ok rungs code ic) bad_image
  ret (record {
    major = byte x 4;
    minor = byte x 5;
    profile_id = u32 x 12 % 2 ^ 16;
    instruction_abi = u16 x 16;
    section_count = u16 x 18;
    image_size = u32 x 8;
    tag_count = u32 tags 0;
    instruction_count = ic;
    rung_count = u32 rungs 0;
  })
