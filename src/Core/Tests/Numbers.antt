-- ===== src/Core/Tests/Numbers.antt =====
-- DINT arithmetic and the search of a state slot at small inputs.
use rsmicro.Prelude.{
  zero, suc, ◌≡◌, ◌↔◌, true, some, get_elem?, arith, some-injective, ◌∷◌, [], List,
}
use rsmicro.Prelude.Int.{pos, negsuc}
use rsmicro.Core.Types.{State}
use rsmicro.Core.Machine.{state_for_slot}
use rsmicro.Core.Slots.{Ascending, state_for_slot_iff}
use rsmicro.Core.Execute.Arith.{div, int_math, int_unary}
use rsmicro.Core.Numbers.{MathEnd, UnaryEnd, int_math-MathEnd, int_unary-UnaryEnd}
use rsmicro.Core.Tests.Program.{fresh_state}

abbrev two_slots : List State
two_slots = fresh_state 3 ∷ fresh_state 7 ∷ []

two_slots-Ascending : Ascending two_slots
two_slots-Ascending zero zero a b l e f = absurd (omega arith)
two_slots-Ascending zero (suc zero) a b l e f =
    ground (arith, some-injective _ _ e, some-injective _ _ f)
two_slots-Ascending zero (suc (suc j)) a b l e f = cc
two_slots-Ascending (suc i) zero a b l e f = absurd (omega arith)
two_slots-Ascending (suc zero) (suc zero) a b l e f = absurd (omega arith)
two_slots-Ascending (suc zero) (suc (suc j)) a b l e f = cc
two_slots-Ascending (suc (suc i)) (suc j) a b l e f = cc

state_for_slot_iff_example :
    (state_for_slot two_slots 7 ≡ some (1, fresh_state 7))
    ↔ ((get_elem? two_slots 1 ≡ some (fresh_state 7)) × ((fresh_state 7).slot ≡ 7))
state_for_slot_iff_example = state_for_slot_iff two_slots 7 1 (fresh_state 7) two_slots-Ascending

int_math-MathEnd_example : MathEnd div (negsuc 6) (pos 2) (int_math div (negsuc 6) (pos 2))
int_math-MathEnd_example = int_math-MathEnd div (negsuc 6) (pos 2) (omega arith) (omega arith)

int_unary-UnaryEnd_example : UnaryEnd true (negsuc 6) (int_unary true (negsuc 6))
int_unary-UnaryEnd_example = int_unary-UnaryEnd true (negsuc 6) (omega arith)
