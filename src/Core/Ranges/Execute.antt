-- ===== src/Core/Ranges/Execute.antt =====
-- `execute` keeps the timers' ACC in range.
use rsmicro.Prelude.{ℕ, Bool, true, false, arith, inl, inr, if_ind, ◌==◌, ◌&&◌}
use rsmicro.Core.Words.{u32_max}
use rsmicro.Core.Types.{Live, Floats, Value, type_of, as_dint, dint, real, FaultCategory}
use rsmicro.Core.Ranges.{Ranged}
use rsmicro.Core.Ranges.Instructions.{
  refuse-Ranged, arity-Ranged, commit-Ranged, contact-Ranged, coil-Ranged, ons-Ranged, ton-Ranged,
  counter-Ranged, res-Ranged,
}
use rsmicro.Core.Frame.Arith.{Result-cases}
use rsmicro.Core.Machine.{Instr, Operand, Step, operand, refuse, number}
use rsmicro.Core.Opcode.{Opcode}
use rsmicro.Core.Execute.{dispatch, execute}
use rsmicro.Core.Execute.Bits.{Coil}
use rsmicro.Core.Execute.Arith.{
  Comparison, Operation, Computed, value, div_zero, overflow, non_finite, exec_compare, exec_clr,
  exec_mov, exec_math, exec_unary, conclude, math_on, unary_on, int_math, float_math,
}

module _ {W : Type 0} (now : W → ℕ × W) (fl : Floats) (i : Instr) (power : Bool) (s : Live W)
    (h : Ranged s.m) where
  compare-Ranged : (c : Comparison) (x : Value) → Ranged (exec_compare now fl i power s c x).live.m
  unfolding exec_compare
  compare-Ranged c x = elim (Result-cases (operand s.m i.b)) [
    | inl (e, q) ↦ ground (arith, arity-Ranged now i power s h, bad)
    | inr (y, q) ↦ ground (arith, arity-Ranged now i power s h, bad)
  ]
    where
      bad : Ranged (refuse now i power s FaultCategory.execution 8 "COMPARE_TYPE" u32_max).live.m
      bad = refuse-Ranged now i power s h FaultCategory.execution 8 "COMPARE_TYPE" u32_max

  clr-Ranged : Ranged (exec_clr now fl i power s).live.m
  unfolding exec_clr
  clr-Ranged = grind (
    arith,
    arity-Ranged now i power s h,
    commit-Ranged now i power s h,
    refuse-Ranged now i power s h,
  )

  mov-Ranged : (x : Value) → Ranged (exec_mov now fl i power s x).live.m
  unfolding exec_mov
  mov-Ranged x = grind (
    arith,
    arity-Ranged now i power s h,
    commit-Ranged now i power s h,
    refuse-Ranged now i power s h,
  )

  conclude-Ranged :
      {A : Type 0} (wrap : A → Value) (o : Operand) (code : ℕ) (c : Computed A)
      → Ranged (conclude now fl i power s wrap o code c).live.m
  unfolding conclude
  conclude-Ranged wrap o code (value q) =
      commit-Ranged now i power s h o (wrap q) code "WRITE" power
  conclude-Ranged wrap o code div_zero =
      refuse-Ranged now i power s h FaultCategory.numeric 2 "DIV_ZERO" o.word
  conclude-Ranged wrap o code overflow =
      refuse-Ranged now i power s h FaultCategory.numeric 3 "OVERFLOW" o.word
  conclude-Ranged wrap o code non_finite =
      refuse-Ranged now i power s h FaultCategory.numeric 3 "NON_FINITE" o.word

  math_on-Ranged :
      (o : Operation) (ty : ℕ) (x y : Value) → Ranged (math_on now fl i power s o ty x y).live.m
  unfolding math_on
  math_on-Ranged o ty x y =
      if_ind (λ (r : Step W). Ranged r.live.m) (ty == 2 && type_of x == 2 && type_of y == 2) _ _
        (λ _. conclude-Ranged dint i.d 15 (int_math o (as_dint x) (as_dint y)))
        λ _.
          if_ind (λ (r : Step W). Ranged r.live.m) (ty == 3) _ _
            (λ _.
              conclude-Ranged real i.d 15
                (float_math fl o (fl.narrow (number fl x)) (fl.narrow (number fl y))))
            λ _. refuse-Ranged now i power s h FaultCategory.execution 14 "MATH_TYPE" i.d.word

  math-Ranged : (o : Operation) (x : Value) → Ranged (exec_math now fl i power s o x).live.m
  unfolding exec_math
  math-Ranged o x =
      grind (arith, arity-Ranged now i power s h, math_on-Ranged, refuse-Ranged now i power s h)

  unary_on-Ranged :
      (negate : Bool) (ty : ℕ) (x : Value) → Ranged (unary_on now fl i power s negate ty x).live.m
  unfolding unary_on
  unary_on-Ranged negate ty x =
      grind
        (arith, conclude-Ranged dint, commit-Ranged now i power s h, refuse-Ranged now i power s h)

  unary-Ranged : (negate : Bool) (x : Value) → Ranged (exec_unary now fl i power s negate x).live.m
  unfolding exec_unary
  unary-Ranged negate x =
      grind (arith, arity-Ranged now i power s h, unary_on-Ranged, refuse-Ranged now i power s h)

module _ {W : Type 0} (now : W → ℕ × W) (fl : Floats) (i : Instr) (power : Bool) (tick : ℕ) where
  dispatch-Ranged :
      (op : Opcode) (x : Value) (s : Live W)
      → Ranged s.m
      → Ranged (dispatch now fl op i power tick x s).live.m
  unfolding dispatch
  dispatch-Ranged Opcode.xic x s h = contact-Ranged now i power s h true x
  dispatch-Ranged Opcode.xio x s h = contact-Ranged now i power s h false x
  dispatch-Ranged Opcode.ote x s h = coil-Ranged now i power s h Coil.energise
  dispatch-Ranged Opcode.otl x s h = coil-Ranged now i power s h Coil.latch
  dispatch-Ranged Opcode.otu x s h = coil-Ranged now i power s h Coil.unlatch
  dispatch-Ranged Opcode.ons x s h = ons-Ranged now i power s h x
  dispatch-Ranged Opcode.ton x s h = ton-Ranged now i power s h tick
  dispatch-Ranged Opcode.ctu x s h = counter-Ranged now i power s h true
  dispatch-Ranged Opcode.ctd x s h = counter-Ranged now i power s h false
  dispatch-Ranged Opcode.res x s h = res-Ranged now i power s h
  dispatch-Ranged Opcode.eq x s h = compare-Ranged now fl i power s h Comparison.eq x
  dispatch-Ranged Opcode.ne x s h = compare-Ranged now fl i power s h Comparison.ne x
  dispatch-Ranged Opcode.gt x s h = compare-Ranged now fl i power s h Comparison.gt x
  dispatch-Ranged Opcode.ge x s h = compare-Ranged now fl i power s h Comparison.ge x
  dispatch-Ranged Opcode.lt x s h = compare-Ranged now fl i power s h Comparison.lt x
  dispatch-Ranged Opcode.le x s h = compare-Ranged now fl i power s h Comparison.le x
  dispatch-Ranged Opcode.mov x s h = mov-Ranged now fl i power s h x
  dispatch-Ranged Opcode.clr x s h = clr-Ranged now fl i power s h
  dispatch-Ranged Opcode.add x s h = math-Ranged now fl i power s h Operation.add x
  dispatch-Ranged Opcode.sub x s h = math-Ranged now fl i power s h Operation.sub x
  dispatch-Ranged Opcode.mul x s h = math-Ranged now fl i power s h Operation.mul x
  dispatch-Ranged Opcode.div x s h = math-Ranged now fl i power s h Operation.div x
  dispatch-Ranged Opcode.neg x s h = unary-Ranged now fl i power s h true x
  dispatch-Ranged Opcode.abs x s h = unary-Ranged now fl i power s h false x
  dispatch-Ranged _ x s h =
      refuse-Ranged now i power s h FaultCategory.execution 19 "UNSUPPORTED_OPCODE" u32_max

  pub execute-Ranged : (s : Live W) → Ranged s.m → Ranged (execute now fl i power tick s).live.m
  unfolding execute
  execute-Ranged s h = grind (arith, dispatch-Ranged, refuse-Ranged now i power s h)
