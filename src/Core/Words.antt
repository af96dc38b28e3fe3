-- ===== src/Core/Words.antt =====
-- Little-endian reads of a byte image, and int32_t, as in runtime/core/src/rsm_runtime.c.
-- A byte buffer is a list of numbers below 256; a pointer into it is an offset.
use rsmicro.Prelude.{ℕ, ◌+◌, ◌-◌, ◌*◌, ◌^◌, List, ltb, if◌then◌else◌, get_or}
use rsmicro.Prelude.Int.{ℤ, pos, negsuc}

abbrev pub Bytes : Type 0
Bytes = List ℕ

-- `p[i]`. The validated offsets lie inside the buffer; beyond its end the model reads 0.
abbrev pub byte : Bytes → ℕ → ℕ
byte x i = get_or x i 0

unfoldable pub u16 : Bytes → ℕ → ℕ
u16 x p = byte x p + byte x (p + 1) * 2 ^ 8

unfoldable pub u32 : Bytes → ℕ → ℕ
u32 x p = byte x p + byte x (p + 1) * 2 ^ 8 + byte x (p + 2) * 2 ^ 16 + byte x (p + 3) * 2 ^ 24

-- The int32_t with a given bit pattern, and the pattern of an int32_t.
abbrev pub signed32 : ℕ → ℤ
signed32 w = if ltb w (2 ^ 31) then pos w else negsuc (2 ^ 32 - w - 1)

abbrev pub unsigned32 : ℤ → ℕ
unsigned32 (pos n) = n
unsigned32 (negsuc n) = 2 ^ 32 - n - 1

unfoldable pub i32 : Bytes → ℕ → ℤ
unfolding u32
i32 x p = signed32 (u32 x p)

abbrev pub u64_mod : ℕ
u64_mod = 2 ^ 64

abbrev pub u32_max : ℕ
u32_max = 2 ^ 32 - 1

abbrev pub int32_max : ℤ
int32_max = pos (2 ^ 31 - 1)

abbrev pub int32_min : ℤ
int32_min = negsuc (2 ^ 31 - 1)
