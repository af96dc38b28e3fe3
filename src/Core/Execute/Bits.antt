-- ===== src/Core/Execute/Bits.antt =====
-- `execute`: the contacts XIC and XIO, the coils OTE, OTL and OTU, and the one-shot ONS.
use rsmicro.Prelude.{ℕ, ◌==◌, if◌then◌else◌, Bool, not, ◌&&◌, ◌||◌}
use rsmicro.Core.Words.{u32_max}
use rsmicro.Core.Types.{Value, boolean, type_of, as_boolean, FaultCategory, Live}
use rsmicro.Core.Tags.{bit}
use rsmicro.Core.Machine.{Instr, Step, finish, refuse, commit, arity_fault}

-- `x.value.boolean != 0`
abbrev pub is_set : Value → Bool
is_set v = not (as_boolean v == 0)

-- OTL writes 1 and OTU 0, on a powered rung only; OTE writes the rung's power.
pub data Coil : Type 0 where
  energise latch unlatch : Coil

module _ {W : Type 0} (now : W → ℕ × W) (i : Instr) (power : Bool) (s : Live W) where
  -- `want` is true of XIC and false of XIO.
  unfoldable pub exec_contact : Bool → Value → Step W
  exec_contact want x =
      if not (i.ac == 1)
      then arity_fault now i power s
      else if not (type_of x == 1)
      then refuse now i power s FaultCategory.execution 3 "TYPE" i.a.word
      else finish i (power && (if want then is_set x else not (is_set x))) s

  unfoldable pub exec_coil : Coil → Step W
  exec_coil coil = if not (i.ac == 1) then arity_fault now i power s else elim coil [
    | energise ↦ commit now i power s i.a (boolean (bit power)) 4 "WRITE" power
    | latch ↦
        if power then commit now i power s i.a (boolean 1) 4 "WRITE" power else finish i power s
    | unlatch ↦
        if power then commit now i power s i.a (boolean 0) 4 "WRITE" power else finish i power s
  ]

  unfoldable pub exec_ons : Value → Step W
  exec_ons x =
      if not (i.ac == 1)
      then arity_fault now i power s
      else if not (i.a.kind == 1) || not (i.a.type == 1) || not (i.a.member == 0)
      then refuse now i power s FaultCategory.execution 5 "ONS_STORAGE" u32_max
      else commit now i power s i.a (boolean (bit power)) 5 "ONS_STORAGE" (power && not (is_set x))
