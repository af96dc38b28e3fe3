-- ===== src/Core/Image/Sections.antt =====
-- size_t arithmetic, `sections` and `state_slot_count`.
use rsmicro.Prelude.{
  ℕ, zero, suc, ◌+◌, ◌-◌, ◌*◌, ◌/◌, ◌^◌, ◌==◌, ltb, if◌then◌else◌, Bool, not, ◌&&◌, ◌||◌, Option,
  none, some, drop,
}
use rsmicro.Core.Words.{Bytes, byte, u16, u32, u32_max}
use rsmicro.Core.Types.{Result, ret, err, bad_image}

infixl 5 ◌>>=◌
abbrev pub ◌>>=◌ {ℓ κ} : {A : Type ℓ} {B : Type κ} → Option A → (A → Option B) → Option B
none >>= k = none
some a >>= k = k a

-- SIZE_MAX of a 64-bit target
abbrev pub size_max : ℕ
size_max = 2 ^ 64 - 1

-- `size_add`, `size_mul` and `size_align8`: `none` is the return value false.
unfoldable pub size_add : ℕ → ℕ → Option ℕ
size_add a b = if ltb (size_max - b) a then none else some (a + b)

unfoldable pub size_mul : ℕ → ℕ → Option ℕ
size_mul a b = if not (a == 0) && not (b == 0) && ltb (size_max / a) b then none else some (a * b)

-- `q & ~7` is the multiple of 8 at or below `q`.
unfoldable pub size_align8 : ℕ → Option ℕ
size_align8 a = do q ← size_add a 7; some (q / 8 * 8)

-- RSM's header size HS and descriptor size DS
abbrev pub header_bytes : ℕ
header_bytes = 72

abbrev pub descriptor_bytes : ℕ
descriptor_bytes = 20

-- `sections`: the offset and the length of the first section of the kind `wanted`, looked for among
-- the `left` descriptors from number `j` on.
unfoldable pub find_section : Bytes → ℕ → ℕ → ℕ → ℕ → Option (ℕ × ℕ)
find_section x n wanted zero j = none
find_section x n wanted (suc left) j =
    let d = header_bytes + j * descriptor_bytes in
    let o = u32 x (d + 4) in
    let l = u32 x (d + 8) in
    let rest = find_section x n wanted left (j + 1) in
    if ltb n o || ltb (n - o) l then none else if u16 x d == wanted then some (o, l) else rest

-- The image is the first `n` bytes of `x`. A 16-bit count of descriptors fits a size_t.
unfoldable pub sections : Bytes → ℕ → ℕ → Option (ℕ × ℕ)
sections x n wanted =
    let count = u16 x 18 in
    if ltb n header_bytes || ltb n (header_bytes + count * descriptor_bytes)
    then none
    else find_section x n wanted count 0

abbrev pub has_state : ℕ → Bool
has_state op = op == 16 || op == 17 || op == 18

-- The loop of `state_slot_count` over the code, with `count` so far. Each round goes on by 12 bytes
-- or more, so `fuel = code_size` is enough.
unfoldable pub count_slots : Bytes → ℕ → ℕ → ℕ → ℕ → Result ℕ
count_slots code size zero offset count = if ltb offset size then err bad_image else ret count
count_slots code size (suc fuel) offset count =
    let step = 12 + byte code (offset + 1) * 8 in
    let found = has_state (byte code offset) in
    let rest = count_slots code size fuel (offset + step) (if found then count + 1 else count) in
    if not (ltb offset size)
    then ret count
    else if ltb (size - offset) step || (found && count == u32_max)
    then err bad_image
    else rest

unfoldable pub state_slot_count : Bytes → ℕ → Result ℕ
state_slot_count x n = elim (sections x n 8) [
  | none ↦ err bad_image
  | some s ↦ count_slots (drop s.0 x) s.1 s.1 0 0
]
