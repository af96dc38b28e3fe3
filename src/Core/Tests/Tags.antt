-- ===== src/Core/Tests/Tags.antt =====
-- The tag store on the small program.
use rsmicro.Prelude.{◌≡◌, ◌↔◌, ◌≤◌, refl, some, length, get_elem?, arith}
use rsmicro.Prelude.Int.{pos}
use rsmicro.Core.Types.{
  ok, ret, boolean, dint, tag_not_found, not_writable, type_mismatch, Tag, trace_capacity,
}
use rsmicro.Core.Tags.{value, put}
use rsmicro.Core.Tags.Force.{force_tag}
use rsmicro.Core.Tags.Writes.{Accepts, put-ok_iff, value-put, put-trace}
use rsmicro.Core.Tags.Forces.{value-force_tag}
use rsmicro.Core.Tests.Program.{loaded}

-- Tag 0 is an input, tag 1 a BOOL and tag 2 a timer; there is no tag 4.
put_cases :
    ((put loaded 1 (boolean 7)).0 ≡ ok)
    × ((put loaded 0 (boolean 1)).0 ≡ not_writable)
    × ((put loaded 1 (dint (pos 1))).0 ≡ type_mismatch)
    × ((put loaded 2 (boolean 1)).0 ≡ type_mismatch)
    × ((put loaded 4 (boolean 1)).0 ≡ tag_not_found)
unfolding put
put_cases = (refl, refl, refl, refl, refl)

put-ok_iff_example :
    ((put loaded 1 (boolean 7)).0 ≡ ok)
    ↔ ((t : Tag) × (get_elem? loaded.tag 1 ≡ some t) × Accepts (boolean 7) t)
put-ok_iff_example = put-ok_iff loaded 1 (boolean 7)

value-put_example : value (put loaded 1 (boolean 7)).1 1 ≡ ret (boolean 1)
value-put_example = value-put loaded 1 1 (boolean 7) put_cases.0

put-trace_example : length (put loaded 1 (boolean 7)).1.trace ≤ trace_capacity
put-trace_example = put-trace loaded 1 (boolean 7) (omega arith)

force_ok : (force_tag loaded 0 (boolean 3)).0 ≡ ok
unfolding force_tag
force_ok = refl

value-force_tag_example : value (force_tag loaded 0 (boolean 3)).1 0 ≡ ret (boolean 1)
value-force_tag_example = value-force_tag loaded 0 0 (boolean 3) force_ok
