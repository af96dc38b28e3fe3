-- ===== src/Core/Ranges/Lifecycle.antt =====
-- The lifecycle passes establish the range of the timers.
use rsmicro.Prelude.{
  ℕ, zero, suc, ◌+◌, ◌≡◌, refl, Bool, true, List, [], ◌∷◌, map, if_ind, ltb, arith,
}
use rsmicro.Core.Types.{Status, status_ind, boolean, Tag, Payload, Impl}
use rsmicro.Core.Machine.{operand_at, instr_size}
use rsmicro.Core.Lifecycle.{
  initial_tag, initial_payload, output_write, write_outputs, lifecycle_outputs,
}
use rsmicro.Core.Ranges.{payload_ranged, tags_ranged, Ranged}
use rsmicro.Core.Ranges.Instructions.{destination-Ranged}

initial_payload-ranged : (p : Payload) → payload_ranged (initial_payload p) ≡ true
initial_payload-ranged (Payload.timer t) = ground arith
initial_payload-ranged (Payload.counter c) = refl
initial_payload-ranged (Payload.b x) = refl
initial_payload-ranged (Payload.d x) = refl
initial_payload-ranged (Payload.f x) = refl

initial_tags-ranged : (ts : List Tag) → tags_ranged (map initial_tag ts) ≡ true
unfolding tags_ranged
initial_tags-ranged [] = refl
initial_tags-ranged (t ∷ ts) = ground (arith, initial_payload-ranged t.v, initial_tags-ranged ts)

output_write-Ranged :
    (prescan : Bool) (o : ℕ) (m : Impl) → Ranged m → Ranged (output_write prescan o m).1
unfolding output_write
output_write-Ranged prescan o m h = ground (
  arith,
  destination-Ranged m (operand_at m.code (o + 12)) (boolean 0),
  destination-Ranged m (operand_at m.code (o + 12)) (boolean 1),
)

write_outputs-Ranged :
    (fuel : ℕ) (prescan : Bool) (o : ℕ) (m : Impl)
    → Ranged m
    → Ranged (write_outputs fuel prescan o m).1
unfolding write_outputs
write_outputs-Ranged zero prescan o m h = h
write_outputs-Ranged (suc fuel) prescan o m h =
    let P : Status × Impl → Type 0 = λ r. Ranged r.1 in
    let k = output_write-Ranged prescan o m h in
    if_ind P (ltb o m.code_size) _ _
      (λ _.
        status_ind P (output_write prescan o m).0 _ _
          (λ _. write_outputs-Ranged fuel prescan (o + instr_size m.code o) _ k) (λ _. k))
      (λ _. h)

-- After a prescan or a postscan of any program the ACC of every timer is a non-negative int32_t,
-- also when the pass fails at an output.
pub lifecycle_outputs-Ranged : (prescan : Bool) (m : Impl) → Ranged (lifecycle_outputs prescan m).1
unfolding lifecycle_outputs
lifecycle_outputs-Ranged prescan m =
    write_outputs-Ranged m.code_size prescan 0 _ (initial_tags-ranged m.tag)
