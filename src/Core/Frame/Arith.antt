-- ===== src/Core/Frame/Arith.antt =====
-- The comparisons, CLR, MOV and the arithmetic keep the fixed parts; so does `execute`.
use rsmicro.Prelude.{ℕ, ◌≡◌, Bool, true, false, arith, inl, inr, ◌⊎◌, refl}
use rsmicro.Core.Words.{u32_max}
use rsmicro.Core.Types.{Live, Floats, Value, Result, ret, err, dint, real, FaultCategory, Status}
use rsmicro.Core.Frame.{Frame}
use rsmicro.Core.Frame.Instructions.{
  refuse-Frame, arity-Frame, commit-Frame, contact-Frame, coil-Frame, ons-Frame,
}
use rsmicro.Core.Frame.Timing.{ton-Frame, counter-Frame, res-Frame}
use rsmicro.Core.Machine.{Instr, Operand, operand, refuse}
use rsmicro.Core.Opcode.{Opcode}
use rsmicro.Core.Execute.{dispatch, execute}
use rsmicro.Core.Execute.Bits.{Coil}
use rsmicro.Core.Execute.Arith.{
  Comparison, Operation, Computed, value, div_zero, overflow, non_finite, exec_compare, exec_clr,
  exec_mov, exec_math, exec_unary, conclude, math_on, unary_on,
}

pub Result-cases {ℓ} :
    {A : Type ℓ} (r : Result A) → ((s : Status) × (r ≡ err s)) ⊎ ((a : A) × (r ≡ ret a))
Result-cases (err s) = inl (s, refl)
Result-cases (ret a) = inr (a, refl)

module _ {W : Type 0} (now : W → ℕ × W) (fl : Floats) (i : Instr) (power : Bool) (s : Live W) where
  compare-Frame :
      (c : Comparison) (x : Value) → Frame s.m (exec_compare now fl i power s c x).live.m
  unfolding exec_compare
  compare-Frame c x = elim (Result-cases (operand s.m i.b)) [
    | inl (e, h) ↦ ground (arith, arity-Frame now i power s, bad)
    | inr (y, h) ↦ ground (arith, arity-Frame now i power s, bad)
  ]
    where
      bad : Frame s.m (refuse now i power s FaultCategory.execution 8 "COMPARE_TYPE" u32_max).live.m
      bad = refuse-Frame now i power s FaultCategory.execution 8 "COMPARE_TYPE" u32_max

  clr-Frame : Frame s.m (exec_clr now fl i power s).live.m
  unfolding exec_clr
  clr-Frame =
      grind
        (arith, arity-Frame now i power s, commit-Frame now i power s, refuse-Frame now i power s)

  mov-Frame : (x : Value) → Frame s.m (exec_mov now fl i power s x).live.m
  unfolding exec_mov
  mov-Frame x =
      grind
        (arith, arity-Frame now i power s, commit-Frame now i power s, refuse-Frame now i power s)

  conclude-Frame :
      {A : Type 0} (wrap : A → Value) (o : Operand) (code : ℕ) (c : Computed A)
      → Frame s.m (conclude now fl i power s wrap o code c).live.m
  unfolding conclude
  conclude-Frame wrap o code (value q) = commit-Frame now i power s o (wrap q) code "WRITE" power
  conclude-Frame wrap o code div_zero =
      refuse-Frame now i power s FaultCategory.numeric 2 "DIV_ZERO" o.word
  conclude-Frame wrap o code overflow =
      refuse-Frame now i power s FaultCategory.numeric 3 "OVERFLOW" o.word
  conclude-Frame wrap o code non_finite =
      refuse-Frame now i power s FaultCategory.numeric 3 "NON_FINITE" o.word

  math_on-Frame :
      (o : Operation) (ty : ℕ) (x y : Value) → Frame s.m (math_on now fl i power s o ty x y).live.m
  unfolding math_on
  math_on-Frame o ty x y =
      grind (arith, conclude-Frame dint, conclude-Frame real, refuse-Frame now i power s)

  math-Frame : (o : Operation) (x : Value) → Frame s.m (exec_math now fl i power s o x).live.m
  unfolding exec_math
  math-Frame o x =
      grind (arith, arity-Frame now i power s, math_on-Frame, refuse-Frame now i power s)

  unary_on-Frame :
      (negate : Bool) (ty : ℕ) (x : Value)
      → Frame s.m (unary_on now fl i power s negate ty x).live.m
  unfolding unary_on
  unary_on-Frame negate ty x =
      grind (arith, conclude-Frame dint, commit-Frame now i power s, refuse-Frame now i power s)

  unary-Frame :
      (negate : Bool) (x : Value) → Frame s.m (exec_unary now fl i power s negate x).live.m
  unfolding exec_unary
  unary-Frame negate x =
      grind (arith, arity-Frame now i power s, unary_on-Frame, refuse-Frame now i power s)

module _ {W : Type 0} (now : W → ℕ × W) (fl : Floats) (i : Instr) (power : Bool) (tick : ℕ) where
  dispatch-Frame :
      (op : Opcode) (x : Value) (s : Live W)
      → Frame s.m (dispatch now fl op i power tick x s).live.m
  unfolding dispatch
  dispatch-Frame Opcode.xic x s = contact-Frame now i power s true x
  dispatch-Frame Opcode.xio x s = contact-Frame now i power s false x
  dispatch-Frame Opcode.ote x s = coil-Frame now i power s Coil.energise
  dispatch-Frame Opcode.otl x s = coil-Frame now i power s Coil.latch
  dispatch-Frame Opcode.otu x s = coil-Frame now i power s Coil.unlatch
  dispatch-Frame Opcode.ons x s = ons-Frame now i power s x
  dispatch-Frame Opcode.ton x s = ton-Frame now i power s tick
  dispatch-Frame Opcode.ctu x s = counter-Frame now i power s true
  dispatch-Frame Opcode.ctd x s = counter-Frame now i power s false
  dispatch-Frame Opcode.res x s = res-Frame now i power s
  dispatch-Frame Opcode.eq x s = compare-Frame now fl i power s Comparison.eq x
  dispatch-Frame Opcode.ne x s = compare-Frame now fl i power s Comparison.ne x
  dispatch-Frame Opcode.gt x s = compare-Frame now fl i power s Comparison.gt x
  dispatch-Frame Opcode.ge x s = compare-Frame now fl i power s Comparison.ge x
  dispatch-Frame Opcode.lt x s = compare-Frame now fl i power s Comparison.lt x
  dispatch-Frame Opcode.le x s = compare-Frame now fl i power s Comparison.le x
  dispatch-Frame Opcode.mov x s = mov-Frame now fl i power s x
  dispatch-Frame Opcode.clr x s = clr-Frame now fl i power s
  dispatch-Frame Opcode.add x s = math-Frame now fl i power s Operation.add x
  dispatch-Frame Opcode.sub x s = math-Frame now fl i power s Operation.sub x
  dispatch-Frame Opcode.mul x s = math-Frame now fl i power s Operation.mul x
  dispatch-Frame Opcode.div x s = math-Frame now fl i power s Operation.div x
  dispatch-Frame Opcode.neg x s = unary-Frame now fl i power s true x
  dispatch-Frame Opcode.abs x s = unary-Frame now fl i power s false x
  dispatch-Frame _ x s =
      refuse-Frame now i power s FaultCategory.execution 19 "UNSUPPORTED_OPCODE" u32_max

  -- No instruction changes the program, a force, the kind of a tag, the slot of a state record or
  -- the power of a rung, whether it succeeds or faults.
  pub execute-Frame : (s : Live W) → Frame s.m (execute now fl i power tick s).live.m
  unfolding execute
  execute-Frame s = grind (arith, dispatch-Frame, refuse-Frame now i power s)
