-- ===== src/Core/Numbers.antt =====
-- The DINT arithmetic of `execute`: ADD, SUB, MUL and DIV, NEG and ABS.
use rsmicro.Prelude.{
  ℕ, zero, suc, ◌+◌, ◌*◌, ◌/◌, ◌^◌, ◌≤◌, ◌<◌, ◌≡◌, ◌≢◌, refl, ap, Bool, true, false, arith, if_ind,
  ◌&&◌,
}
use native.Mathlib.Nat.{mul-le-mul, mul-le-mul_left, div-mul-le_self, lt-div-mul-add, div-le_self}
use rsmicro.Prelude.Int.{
  sub_ℕ, ℤ, pos, negsuc, pos_part, neg_part, ◌+ℤ◌, ◌-ℤ◌, ◌*ℤ◌, ◌/ℤ◌, ◌≤ℤ◌, eqb_ℤ,
}
use rsmicro.Core.Words.{int32_min}
use rsmicro.Core.Timing.Counters.{IsInt32}
use rsmicro.Core.Execute.Timing.{is_negative}
use rsmicro.Core.Execute.Arith.{
  Operation, add, sub, mul, div, Computed, value, div_zero, overflow, non_finite, in_int32, checked,
  int_math, int_unary,
}

abbrev pub magnitude : ℤ → ℕ
magnitude x = pos_part x + neg_part x

-- `q` is x / y, rounded toward zero.
pub record IsQuotient (x y q : ℤ) : Type 0 where
  pub low : magnitude q * magnitude y ≤ magnitude x
  pub high : magnitude x < (magnitude q + 1) * magnitude y
  pub same : is_negative x ≡ is_negative y → pos 0 ≤ℤ q
  pub apart : is_negative x ≢ is_negative y → q ≤ℤ pos 0

-- The ends of ADD, SUB and MUL: the exact result where it is an int32_t, else an overflow.
abbrev pub Exactly : ℤ → Computed ℤ → Type 0
Exactly z (value q) = (q ≡ z) × IsInt32 z
Exactly z overflow = ¬ (IsInt32 z)
Exactly z _ = ⊥

-- The ends of DIV.
abbrev pub Divided : ℤ → ℤ → Computed ℤ → Type 0
Divided x y (value q) = IsInt32 q × IsQuotient x y q
Divided x y div_zero = y ≡ pos 0
Divided x y overflow = (x ≡ int32_min) × (y ≡ negsuc 0)
Divided x y non_finite = ⊥

-- an int64_t holds the result before the test of its range
abbrev pub Wide : ℤ → Type 0
Wide z = magnitude z ≤ 2 ^ 62

-- How the DINT branch of ADD, SUB, MUL and DIV ends. The source computes the sum, the difference and
-- the product as an int64_t, which holds them.
abbrev pub MathEnd : Operation → ℤ → ℤ → Computed ℤ → Type 0
MathEnd add x y r = Exactly (x +ℤ y) r × Wide (x +ℤ y)
MathEnd sub x y r = Exactly (x -ℤ y) r × Wide (x -ℤ y)
MathEnd mul x y r = Exactly (x *ℤ y) r × Wide (x *ℤ y)
MathEnd div x y r = Divided x y r

checked-Exactly : (z : ℤ) → Exactly z (checked z)
checked-Exactly z =
    if_ind (Exactly z) (in_int32 z) (value z) overflow (λ h. (refl, ground arith))
      (λ h k. ground arith)

magnitude-sub_ℕ : (s t : ℕ) → magnitude (sub_ℕ s t) ≤ s + t
magnitude-sub_ℕ s t = ground arith

Wide-add : (x y : ℤ) → IsInt32 x → IsInt32 y → Wide (x +ℤ y)
unfolding ◌+ℤ◌
Wide-add x y h k = ground arith

Wide-sub : (x y : ℤ) → IsInt32 x → IsInt32 y → Wide (x -ℤ y)
unfolding ◌-ℤ◌
Wide-sub x y h k = ground arith

magnitude-le : (x : ℤ) → IsInt32 x → magnitude x ≤ 2 ^ 31
magnitude-le (pos a) h = omega arith
magnitude-le (negsuc a) h = omega arith

Wide-mul : (x y : ℤ) → IsInt32 x → IsInt32 y → Wide (x *ℤ y)
unfolding ◌*ℤ◌
Wide-mul x y h k = omega (
  arith,
  magnitude-sub_ℕ (pos_part x * pos_part y + neg_part x * neg_part y)
      (pos_part x * neg_part y + neg_part x * pos_part y),
  mul-le-mul (magnitude-le x h) (magnitude-le y k),
)

quotient_bounds : (a b : ℕ) → 0 < b → (a / b * b ≤ a) × (a < (a / b + 1) * b) × (a / b ≤ a)
quotient_bounds a b h =
    (div-mul-le_self a b, omega (arith, lt-div-mul-add {a = a} h), div-le_self a b)

div-IsQuotient : (x y : ℤ) → y ≢ pos 0 → IsQuotient x y (x /ℤ y)
unfolding ◌/ℤ◌
div-IsQuotient (pos a) (pos zero) n = absurd (n refl)
div-IsQuotient (pos a) (pos (suc b)) n = ground (arith, quotient_bounds a (suc b))
div-IsQuotient (pos a) (negsuc b) n = ground (arith, quotient_bounds a (suc b))
div-IsQuotient (negsuc a) (pos zero) n = absurd (n refl)
div-IsQuotient (negsuc a) (pos (suc b)) n = ground (arith, quotient_bounds (suc a) (suc b))
div-IsQuotient (negsuc a) (negsuc b) n = ground (arith, quotient_bounds (suc a) (suc b))

quotient-IsInt32 :
    (x y : ℤ) → IsInt32 x → (eqb_ℤ x int32_min && eqb_ℤ y (negsuc 0)) ≡ false → IsInt32 (x /ℤ y)
unfolding ◌/ℤ◌
quotient-IsInt32 (pos a) (pos b) h k = omega (arith, div-le_self a b)
quotient-IsInt32 (pos a) (negsuc b) h k = ground (arith, div-le_self a (suc b))
quotient-IsInt32 (negsuc a) (pos b) h k = ground (arith, div-le_self (suc a) b)
quotient-IsInt32 (negsuc a) (negsuc zero) h k = ground (arith, div-le_self (suc a) 1)
quotient-IsInt32 (negsuc a) (negsuc (suc b)) h k =
    let q = suc a / suc (suc b) in
    omega (
      arith,
      div-mul-le_self (suc a) (suc (suc b)),
      mul-le-mul_left {m = 2} {n = suc (suc b)} q (omega arith),
    )

checked-value : (z : ℤ) → IsInt32 z → checked z ≡ value z
checked-value z h = ground arith

-- ADD, SUB and MUL of two int32_t values give the exact result if it is an int32_t and an overflow
-- if it is not, and the result before that test fits an int64_t. DIV gives the quotient rounded
-- toward zero, which is an int32_t, a division by zero only for the divisor 0, and an overflow
-- only for INT32_MIN / -1.
pub int_math-MathEnd :
    (o : Operation) (x y : ℤ) → IsInt32 x → IsInt32 y → MathEnd o x y (int_math o x y)
unfolding int_math
int_math-MathEnd add x y h k = (checked-Exactly (x +ℤ y), Wide-add x y h k)
int_math-MathEnd sub x y h k = (checked-Exactly (x -ℤ y), Wide-sub x y h k)
int_math-MathEnd mul x y h k = (checked-Exactly (x *ℤ y), Wide-mul x y h k)
int_math-MathEnd div x y h k =
    if_ind (Divided x y) (eqb_ℤ y (pos 0)) _ _ (λ e. ground arith)
      λ n.
        if_ind (Divided x y) (eqb_ℤ x int32_min && eqb_ℤ y (negsuc 0)) _ _ (λ e. ground arith)
          λ m.
            let fits = quotient-IsInt32 x y h m in
            rw (checked-value (x /ℤ y) fits)
              (fits, div-IsQuotient x y (λ e. ground (arith, n, ap eqb_ℤ e)))

-- The ends of NEG (`negate`) and ABS.
abbrev pub UnaryEnd : Bool → ℤ → Computed ℤ → Type 0
UnaryEnd true x (value q) = IsInt32 q × (x +ℤ q ≡ pos 0)
UnaryEnd false x (value q) = IsInt32 q × (q ≡ pos (magnitude x))
UnaryEnd negate x overflow = x ≡ int32_min
UnaryEnd negate x _ = ⊥

-- NEG of an int32_t gives the number that adds up to 0 with it, and ABS its magnitude, as an int32_t;
-- both report an overflow only for INT32_MIN.
pub int_unary-UnaryEnd :
    (negate : Bool) (x : ℤ) → IsInt32 x → UnaryEnd negate x (int_unary negate x)
unfolding int_unary ◌-ℤ◌ ◌+ℤ◌
int_unary-UnaryEnd true x h = ground arith
int_unary-UnaryEnd false x h = ground arith
