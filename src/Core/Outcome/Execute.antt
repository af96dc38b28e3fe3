-- ===== src/Core/Outcome/Execute.antt =====
-- Every instruction of `execute` runs, or faults with the program's data as it was.
use rsmicro.Prelude.{ℕ, Bool, true, false, arith, inl, inr, if_ind, ◌==◌, ◌&&◌}
use rsmicro.Core.Words.{u32_max}
use rsmicro.Core.Types.{Live, Floats, Value, type_of, as_dint, dint, real, FaultCategory}
use rsmicro.Core.Outcome.{
  Outcome, refuse-Outcome, arity-Outcome, commit-Outcome, contact-Outcome, coil-Outcome,
  ons-Outcome, ton-Outcome, counter-Outcome, res-Outcome,
}
use rsmicro.Core.Frame.Arith.{Result-cases}
use rsmicro.Core.Machine.{Instr, Operand, operand, refuse, number}
use rsmicro.Core.Opcode.{Opcode}
use rsmicro.Core.Execute.{dispatch, execute}
use rsmicro.Core.Execute.Bits.{Coil}
use rsmicro.Core.Execute.Arith.{
  Comparison, Operation, Computed, value, div_zero, overflow, non_finite, exec_compare, exec_clr,
  exec_mov, exec_math, exec_unary, conclude, math_on, unary_on, int_math, float_math,
}

module _ {W : Type 0} (now : W → ℕ × W) (fl : Floats) (i : Instr) (power : Bool) (s : Live W) where
  compare-Outcome :
      (c : Comparison) (x : Value) → Outcome s power (exec_compare now fl i power s c x)
  unfolding exec_compare
  compare-Outcome c x = elim (Result-cases (operand s.m i.b)) [
    | inl (e, h) ↦ ground (arith, arity-Outcome now i power s, bad)
    | inr (y, h) ↦ ground (arith, arity-Outcome now i power s, bad)
  ]
    where
      bad : Outcome s power (refuse now i power s FaultCategory.execution 8 "COMPARE_TYPE" u32_max)
      bad = refuse-Outcome now i power s FaultCategory.execution 8 "COMPARE_TYPE" u32_max

  clr-Outcome : Outcome s power (exec_clr now fl i power s)
  unfolding exec_clr
  clr-Outcome = grind (
    arith,
    arity-Outcome now i power s,
    commit-Outcome now i power s,
    refuse-Outcome now i power s,
  )

  mov-Outcome : (x : Value) → Outcome s power (exec_mov now fl i power s x)
  unfolding exec_mov
  mov-Outcome x = grind (
    arith,
    arity-Outcome now i power s,
    commit-Outcome now i power s,
    refuse-Outcome now i power s,
  )

  conclude-Outcome :
      {A : Type 0} (wrap : A → Value) (o : Operand) (code : ℕ) (c : Computed A)
      → Outcome s power (conclude now fl i power s wrap o code c)
  unfolding conclude
  conclude-Outcome wrap o code (value q) =
      commit-Outcome now i power s o (wrap q) code "WRITE" power
  conclude-Outcome wrap o code div_zero =
      refuse-Outcome now i power s FaultCategory.numeric 2 "DIV_ZERO" o.word
  conclude-Outcome wrap o code overflow =
      refuse-Outcome now i power s FaultCategory.numeric 3 "OVERFLOW" o.word
  conclude-Outcome wrap o code non_finite =
      refuse-Outcome now i power s FaultCategory.numeric 3 "NON_FINITE" o.word

  math_on-Outcome :
      (o : Operation) (ty : ℕ) (x y : Value) → Outcome s power (math_on now fl i power s o ty x y)
  unfolding math_on
  math_on-Outcome o ty x y =
      if_ind (Outcome s power) (ty == 2 && type_of x == 2 && type_of y == 2) _ _
        (λ _. conclude-Outcome dint i.d 15 (int_math o (as_dint x) (as_dint y)))
        λ _.
          if_ind (Outcome s power) (ty == 3) _ _
            (λ _.
              conclude-Outcome real i.d 15
                (float_math fl o (fl.narrow (number fl x)) (fl.narrow (number fl y))))
            λ _. refuse-Outcome now i power s FaultCategory.execution 14 "MATH_TYPE" i.d.word

  math-Outcome : (o : Operation) (x : Value) → Outcome s power (exec_math now fl i power s o x)
  unfolding exec_math
  math-Outcome o x =
      grind (arith, arity-Outcome now i power s, math_on-Outcome, refuse-Outcome now i power s)

  unary_on-Outcome :
      (negate : Bool) (ty : ℕ) (x : Value) → Outcome s power (unary_on now fl i power s negate ty x)
  unfolding unary_on
  unary_on-Outcome negate ty x =
      grind
        (arith, conclude-Outcome dint, commit-Outcome now i power s, refuse-Outcome now i power s)

  unary-Outcome :
      (negate : Bool) (x : Value) → Outcome s power (exec_unary now fl i power s negate x)
  unfolding exec_unary
  unary-Outcome negate x =
      grind (arith, arity-Outcome now i power s, unary_on-Outcome, refuse-Outcome now i power s)

module _ {W : Type 0} (now : W → ℕ × W) (fl : Floats) (i : Instr) (power : Bool) (tick : ℕ) where
  dispatch-Outcome :
      (op : Opcode) (x : Value) (s : Live W) → Outcome s power (dispatch now fl op i power tick x s)
  unfolding dispatch
  dispatch-Outcome Opcode.xic x s = contact-Outcome now i power s true x
  dispatch-Outcome Opcode.xio x s = contact-Outcome now i power s false x
  dispatch-Outcome Opcode.ote x s = coil-Outcome now i power s Coil.energise
  dispatch-Outcome Opcode.otl x s = coil-Outcome now i power s Coil.latch
  dispatch-Outcome Opcode.otu x s = coil-Outcome now i power s Coil.unlatch
  dispatch-Outcome Opcode.ons x s = ons-Outcome now i power s x
  dispatch-Outcome Opcode.ton x s = ton-Outcome now i power s tick
  dispatch-Outcome Opcode.ctu x s = counter-Outcome now i power s true
  dispatch-Outcome Opcode.ctd x s = counter-Outcome now i power s false
  dispatch-Outcome Opcode.res x s = res-Outcome now i power s
  dispatch-Outcome Opcode.eq x s = compare-Outcome now fl i power s Comparison.eq x
  dispatch-Outcome Opcode.ne x s = compare-Outcome now fl i power s Comparison.ne x
  dispatch-Outcome Opcode.gt x s = compare-Outcome now fl i power s Comparison.gt x
  dispatch-Outcome Opcode.ge x s = compare-Outcome now fl i power s Comparison.ge x
  dispatch-Outcome Opcode.lt x s = compare-Outcome now fl i power s Comparison.lt x
  dispatch-Outcome Opcode.le x s = compare-Outcome now fl i power s Comparison.le x
  dispatch-Outcome Opcode.mov x s = mov-Outcome now fl i power s x
  dispatch-Outcome Opcode.clr x s = clr-Outcome now fl i power s
  dispatch-Outcome Opcode.add x s = math-Outcome now fl i power s Operation.add x
  dispatch-Outcome Opcode.sub x s = math-Outcome now fl i power s Operation.sub x
  dispatch-Outcome Opcode.mul x s = math-Outcome now fl i power s Operation.mul x
  dispatch-Outcome Opcode.div x s = math-Outcome now fl i power s Operation.div x
  dispatch-Outcome Opcode.neg x s = unary-Outcome now fl i power s true x
  dispatch-Outcome Opcode.abs x s = unary-Outcome now fl i power s false x
  dispatch-Outcome _ x s =
      refuse-Outcome now i power s FaultCategory.execution 19 "UNSUPPORTED_OPCODE" u32_max

  -- An instruction either returns OK, with the mode, the fault record and the fault count as they
  -- were, or returns FAULTED, with the mode FAULTED, one more fault counted, and the power, every
  -- tag, every state record and the write trace as they were.
  pub execute-Outcome : (s : Live W) → Outcome s power (execute now fl i power tick s)
  unfolding execute
  execute-Outcome s = grind (arith, dispatch-Outcome, refuse-Outcome now i power s)
