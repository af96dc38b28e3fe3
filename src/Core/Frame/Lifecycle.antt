-- ===== src/Core/Frame/Lifecycle.antt =====
-- What a prescan and a postscan never change: the forces, their count, and the kinds of the tags.
use rsmicro.Prelude.{
  ℕ, zero, suc, ◌+◌, ◌≡◌, refl, ◌∙◌, ap, Bool, List, [], ◌∷◌, map, if_ind, ltb, arith,
}
use rsmicro.Core.Types.{Status, status_ind, Tag, Impl, boolean}
use rsmicro.Core.Machine.{operand_at, instr_size}
use rsmicro.Core.Frame.{Frame, Fixed, tag_kind}
use rsmicro.Core.Frame.Instructions.{destination-Frame}
use rsmicro.Core.Lifecycle.{
  initial_tag, initial_state, output_write, write_outputs, lifecycle_outputs,
}

output_write-Frame : (pre : Bool) (o : ℕ) (m : Impl) → Frame m (output_write pre o m).1
unfolding output_write
output_write-Frame pre o m = ground (
  arith,
  destination-Frame m (operand_at m.code (o + 12)) (boolean 0),
  destination-Frame m (operand_at m.code (o + 12)) (boolean 1),
)

write_outputs-Frame :
    (fuel : ℕ) (pre : Bool) (o : ℕ) (m : Impl) → Frame m (write_outputs fuel pre o m).1
unfolding write_outputs
write_outputs-Frame zero pre o m = refl
write_outputs-Frame (suc fuel) pre o m =
    let r = output_write pre o m in
    let here = output_write-Frame pre o m in
    let rest = write_outputs-Frame fuel pre (o + instr_size m.code o) r.1 in
    if_ind (λ (x : Status × Impl). Frame m x.1) (ltb o m.code_size) _ _
      (λ _. status_ind (λ (x : Status × Impl). Frame m x.1) r.0 _ _ (λ _. rest ∙ here) (λ _. here))
      (λ _. refl)

initial-kinds : (ts : List Tag) → map tag_kind (map initial_tag ts) ≡ map tag_kind ts
initial-kinds [] = refl
initial-kinds (t ∷ ts) = ground (arith, initial-kinds ts)

pub lifecycle_outputs-kinds :
    (pre : Bool) (m : Impl)
    → ((lifecycle_outputs pre m).1.force ≡ m.force)
      × (map tag_kind (lifecycle_outputs pre m).1.tag ≡ map tag_kind m.tag)
      × ((lifecycle_outputs pre m).1.diag.active_force_count ≡ m.diag.active_force_count)
unfolding lifecycle_outputs
lifecycle_outputs-kinds pre m =
    let m' = record m { state = map (initial_state pre) m.state; tag = map initial_tag m.tag } in
    let f = write_outputs-Frame m.code_size pre 0 m' in
    (
      ap (λ (x : Fixed). x.force) f,
      ap (λ (x : Fixed). x.kinds) f ∙ initial-kinds m.tag,
      ap (λ (x : Fixed). x.active_force_count) f,
    )
