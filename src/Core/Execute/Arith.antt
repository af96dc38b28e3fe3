-- ===== src/Core/Execute/Arith.antt =====
-- `execute`: the comparisons EQ to LE, CLR, MOV, the arithmetic ADD to DIV, and NEG and ABS.
use rsmicro.Prelude.{
  ℕ, ◌==◌, if◌then◌else◌, Bool, true, false, not, ◌&&◌, ◌||◌, Option, none, some, get_elem?,
}
use rsmicro.Prelude.Int.{ℤ, pos, negsuc, ◌+ℤ◌, ◌-ℤ◌, ◌*ℤ◌, ◌/ℤ◌, eqb_ℤ, leb_ℤ}
use rsmicro.Core.Words.{u32_max, int32_max, int32_min}
use rsmicro.Core.Types.{
  ret, err, Value, boolean, dint, real, type_of, as_dint, as_real, FaultCategory, Live, Floats,
  tag_type,
}
use rsmicro.Core.Machine.{
  Instr, Operand, Step, finish, skip, refuse, commit, arity_fault, tag_at, operand, numeric, number,
}

pub data Comparison : Type 0 where
  eq ne gt ge lt le : Comparison

-- The test of a comparison on two doubles.
abbrev pub compares : Floats → Comparison → ℕ → ℕ → Bool
compares fl Comparison.eq q w = fl.eq_double q w
compares fl Comparison.ne q w = not (fl.eq_double q w)
compares fl Comparison.gt q w = fl.lt_double w q
compares fl Comparison.ge q w = fl.le_double w q
compares fl Comparison.lt q w = fl.lt_double q w
compares fl Comparison.le q w = fl.le_double q w

pub data Operation : Type 0 where
  add sub mul div : Operation

-- How a numeric computation ends: with a value, or with the code and message of a NUMERIC fault.
pub data Computed {ℓ} (A : Type ℓ) : Type ℓ where
  value : A → Computed A
  div_zero overflow non_finite : Computed A

abbrev pub in_int32 : ℤ → Bool
in_int32 q = leb_ℤ int32_min q && leb_ℤ q int32_max

-- `q>INT32_MAX||q<INT32_MIN` on the int64_t result, which never overflows itself
abbrev pub checked : ℤ → Computed ℤ
checked q = if in_int32 q then value q else overflow

-- The DINT branch of ADD, SUB, MUL and DIV.
unfoldable pub int_math : Operation → ℤ → ℤ → Computed ℤ
int_math add x y = checked (x +ℤ y)
int_math sub x y = checked (x -ℤ y)
int_math mul x y = checked (x *ℤ y)
int_math div x y =
    if eqb_ℤ y (pos 0)
    then div_zero
    else if eqb_ℤ x int32_min && eqb_ℤ y (negsuc 0)
    then overflow
    else checked (x /ℤ y)

abbrev pub float_result : Floats → Operation → ℕ → ℕ → ℕ
float_result fl add v w = fl.add v w
float_result fl sub v w = fl.sub v w
float_result fl mul v w = fl.mul v w
float_result fl div v w = fl.div v w

abbrev pub is_div : Operation → Bool
is_div div = true
is_div _ = false

-- The REAL branch: `v` is the first operand and `w` the second.
unfoldable pub float_math : Floats → Operation → ℕ → ℕ → Computed ℕ
float_math fl o v w =
    if is_div o && fl.eq w 0
    then div_zero
    else if not (fl.is_finite (float_result fl o v w))
    then non_finite
    else value (float_result fl o v w)

-- NEG (true) and ABS (false) on a DINT.
unfoldable pub int_unary : Bool → ℤ → Computed ℤ
int_unary negate x =
    if eqb_ℤ x int32_min
    then overflow
    else value (if negate || not (leb_ℤ (pos 0) x) then pos 0 -ℤ x else x)

-- NEG (true) and ABS (false) on a REAL.
abbrev pub float_unary : Floats → Bool → ℕ → ℕ
float_unary fl negate q = if negate then fl.neg q else fl.fabs q

-- MOV's conversion of `x` for a destination of type `ty`.
unfoldable pub convert : Floats → ℕ → Value → Option Value
convert fl ty x =
    if ty == type_of x
    then some x
    else if ty == 3 && type_of x == 2
    then some (real (fl.of_dint (as_dint x)))
    else if ty == 2
        && type_of x == 3
        && fl.is_finite (as_real x)
        && fl.lt (as_real x) 0x4f000000
        && fl.le 0xcf000000 (as_real x)
    then some (dint (fl.to_dint (as_real x)))
    else none

-- CLR's value for a type.
abbrev pub cleared_value : ℕ → Option Value
cleared_value ty =
    if ty == 1
    then some (boolean 0)
    else if ty == 2
    then some (dint (pos 0))
    else if ty == 3
    then some (real 0)
    else none

module _ {W : Type 0} (now : W → ℕ × W) (fl : Floats) (i : Instr) (power : Bool) (s : Live W) where
  unfoldable pub exec_compare : Comparison → Value → Step W
  exec_compare c x = if not (i.ac == 2) then arity_fault now i power s else elim (operand s.m i.b) [
    | err _ ↦ refuse now i power s FaultCategory.execution 8 "COMPARE_TYPE" u32_max
    | ret y ↦
        if not (numeric x) || not (numeric y)
        then refuse now i power s FaultCategory.execution 8 "COMPARE_TYPE" u32_max
        else finish i (power && compares fl c (number fl x) (number fl y)) s
  ]

  -- The validated operand is a tag; the source indexes the table without a test here.
  unfoldable pub exec_clr : Step W
  exec_clr =
      if not (i.ac == 1)
      then arity_fault now i power s
      else if not power
      then finish i power s
      else elim (get_elem? s.m.tag i.a.word) [
        | none ↦ refuse now i power s FaultCategory.execution 9 "CLR_TYPE" i.a.word
        | some t ↦ elim (cleared_value (tag_type t)) [
          | none ↦ refuse now i power s FaultCategory.execution 9 "CLR_TYPE" i.a.word
          | some z ↦ commit now i power s i.a z 10 "WRITE" power
        ]
      ]

  unfoldable pub exec_mov : Value → Step W
  exec_mov x =
      if not (i.ac == 2)
      then arity_fault now i power s
      else if not power
      then finish i power s
      else elim (tag_at s i.b) [
        | none ↦ refuse now i power s FaultCategory.execution 11 "DEST" u32_max
        | some t ↦ elim (convert fl (tag_type t) x) [
          | none ↦ refuse now i power s FaultCategory.numeric 1 "CONVERSION" i.b.word
          | some z ↦ commit now i power s i.b z 12 "WRITE" power
        ]
      ]

  -- The end of a computation: the write to `o`, or the NUMERIC fault.
  unfoldable pub conclude {ℓ} : {A : Type ℓ} → (A → Value) → Operand → ℕ → Computed A → Step W
  conclude wrap o code (value q) = commit now i power s o (wrap q) code "WRITE" power
  conclude wrap o code div_zero = refuse now i power s FaultCategory.numeric 2 "DIV_ZERO" o.word
  conclude wrap o code overflow = refuse now i power s FaultCategory.numeric 3 "OVERFLOW" o.word
  conclude wrap o code non_finite = refuse now i power s FaultCategory.numeric 3 "NON_FINITE" o.word

  abbrev pub operand_fault : Step W
  operand_fault = refuse now i power s FaultCategory.execution 13 "MATH_OPERAND" u32_max

  -- ADD to DIV with numeric operands `x` and `y`, for a destination of type `ty`.
  unfoldable pub math_on : Operation → ℕ → Value → Value → Step W
  math_on o ty x y =
      if ty == 2 && type_of x == 2 && type_of y == 2
      then conclude dint i.d 15 (int_math o (as_dint x) (as_dint y))
      else if ty == 3
      then conclude real i.d 15
          (float_math fl o (fl.narrow (number fl x)) (fl.narrow (number fl y)))
      else refuse now i power s FaultCategory.execution 14 "MATH_TYPE" i.d.word

  -- Without power the arithmetic returns before the end, as RES does.
  unfoldable pub exec_math : Operation → Value → Step W
  exec_math o x =
      if not (i.ac == 3)
      then arity_fault now i power s
      else if not power
      then skip power s
      else elim (operand s.m i.b) [
        | err _ ↦ operand_fault
        | ret y ↦
            if not (numeric x) || not (numeric y)
            then operand_fault
            else elim (tag_at s i.d) [ none ↦ operand_fault | some t ↦ math_on o (tag_type t) x y ]
      ]

  unfoldable pub unary_on : Bool → ℕ → Value → Step W
  unary_on negate ty x =
      if ty == 2 && type_of x == 2
      then conclude dint i.b 18 (int_unary negate (as_dint x))
      else if ty == 3 && numeric x
      then commit now i power s i.b (real (float_unary fl negate (fl.narrow (number fl x)))) 18
          "WRITE" power
      else refuse now i power s FaultCategory.execution 17 "MATH_TYPE" u32_max

  unfoldable pub exec_unary : Bool → Value → Step W
  exec_unary negate x =
      if not (i.ac == 2)
      then arity_fault now i power s
      else if not power
      then finish i power s
      else elim (tag_at s i.b) [
        | none ↦ refuse now i power s FaultCategory.execution 16 "DEST" u32_max
        | some t ↦ unary_on negate (tag_type t) x
      ]
