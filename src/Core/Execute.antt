-- ===== src/Core/Execute.antt =====
-- `execute` of runtime/core/src/rsm_runtime.c: the operand prologue and the dispatch on the opcode.
pub mod Bits
pub mod Timing
pub mod Arith
use rsmicro.Prelude.{ℕ, ◌==◌, if◌then◌else◌, Bool, true, false}
use rsmicro.Core.Words.{u32_max}
use rsmicro.Core.Types.{Result, ret, err, Value, other, FaultCategory, Live, Floats}
use rsmicro.Core.Opcode.{Opcode, opcode}
use rsmicro.Core.Machine.{Instr, Step, refuse, operand}
use Bits.{Coil, exec_contact, exec_coil, exec_ons}
use Timing.{exec_ton, exec_counter, exec_res}
use Arith.{Comparison, Operation, exec_compare, exec_clr, exec_mov, exec_math, exec_unary}

-- TON, CTU, CTD and RES take their operand as a tag, not as a value.
abbrev pub reads_operand : Opcode → Bool
reads_operand Opcode.ton = false
reads_operand Opcode.ctu = false
reads_operand Opcode.ctd = false
reads_operand Opcode.res = false
reads_operand _ = true

module _ {W : Type 0} (now : W → ℕ × W) (fl : Floats) where
  -- The chain of `if`s on the opcode; `x` is the value of operand `a`.
  unfoldable pub dispatch : Opcode → Instr → Bool → ℕ → Value → Live W → Step W
  dispatch Opcode.xic i power tick x s = exec_contact now i power s true x
  dispatch Opcode.xio i power tick x s = exec_contact now i power s false x
  dispatch Opcode.ote i power tick x s = exec_coil now i power s Coil.energise
  dispatch Opcode.otl i power tick x s = exec_coil now i power s Coil.latch
  dispatch Opcode.otu i power tick x s = exec_coil now i power s Coil.unlatch
  dispatch Opcode.ons i power tick x s = exec_ons now i power s x
  dispatch Opcode.ton i power tick x s = exec_ton now i power s tick
  dispatch Opcode.ctu i power tick x s = exec_counter now i power s true
  dispatch Opcode.ctd i power tick x s = exec_counter now i power s false
  dispatch Opcode.res i power tick x s = exec_res now i power s
  dispatch Opcode.eq i power tick x s = exec_compare now fl i power s Comparison.eq x
  dispatch Opcode.ne i power tick x s = exec_compare now fl i power s Comparison.ne x
  dispatch Opcode.gt i power tick x s = exec_compare now fl i power s Comparison.gt x
  dispatch Opcode.ge i power tick x s = exec_compare now fl i power s Comparison.ge x
  dispatch Opcode.lt i power tick x s = exec_compare now fl i power s Comparison.lt x
  dispatch Opcode.le i power tick x s = exec_compare now fl i power s Comparison.le x
  dispatch Opcode.mov i power tick x s = exec_mov now fl i power s x
  dispatch Opcode.clr i power tick x s = exec_clr now fl i power s
  dispatch Opcode.add i power tick x s = exec_math now fl i power s Operation.add x
  dispatch Opcode.sub i power tick x s = exec_math now fl i power s Operation.sub x
  dispatch Opcode.mul i power tick x s = exec_math now fl i power s Operation.mul x
  dispatch Opcode.div i power tick x s = exec_math now fl i power s Operation.div x
  dispatch Opcode.neg i power tick x s = exec_unary now fl i power s true x
  dispatch Opcode.abs i power tick x s = exec_unary now fl i power s false x
  dispatch _ i power tick x s =
      refuse now i power s FaultCategory.execution 19 "UNSUPPORTED_OPCODE" u32_max

  -- `x` is all zero bytes where the operand is not read.
  unfoldable pub execute : Instr → Bool → ℕ → Live W → Step W
  execute i power tick s =
      if i.ac == 0
      then dispatch (opcode i.op) i power tick (other 0 0) s
      else if reads_operand (opcode i.op)
      then elim (operand s.m i.a) [
        | err _ ↦ refuse now i power s FaultCategory.execution 1 "OPERAND" i.a.word
        | ret x ↦ dispatch (opcode i.op) i power tick x s
      ]
      else dispatch (opcode i.op) i power tick (other 0 0) s
