-- ===== src/Core/Tests/Image.antt =====
-- The image checks at concrete sizes and operands.
use rsmicro.Prelude.{◌+◌, ◌%◌, ◌≡◌, ◌≤◌, zero, suc, refl, true, some, arith}
use rsmicro.Core.Types.{ok, boolean, Payload}
use rsmicro.Core.Machine.{Operand, destination}
use rsmicro.Core.Scan.{rung_end}
use rsmicro.Core.Image.Sections.{size_max, size_add, size_mul, size_align8}
use rsmicro.Core.Image.Layout.{Sizes, Layout, required_layout, content, required_layout-content}
use rsmicro.Core.Image.Operands.{Loaded, tag_operand, destination-tag_operand}
use rsmicro.Core.Image.Rungs.{rung_walk, next_depth, rung_walk-rung_end}
use rsmicro.Core.Tests.Program.{program, tag_section, timer, counter, loaded}

-- The sizes that a compiler for a 64-bit target may choose.
abbrev sizes : Sizes
sizes = record { impl = 1200; tag = 20; force = 12; state = 16; bool = 1 }

layout : required_layout sizes 4 2 3 ≡ some 1368
unfolding required_layout size_align8 size_add size_mul
layout = refl

required_layout-content_example :
    Layout sizes 4 2 3 1368
    × (content sizes 4 2 3 ≤ 1368)
    × (1368 ≤ content sizes 4 2 3 + 35)
    × (1368 % 8 ≡ 0)
    × (1368 ≤ size_max)
required_layout-content_example = required_layout-content sizes 4 2 3 1368 layout

tags-Loaded : Loaded loaded tag_section 4
tags-Loaded zero h = (record { storage = 1; retentive = 0; v = Payload.b 1 }, refl, refl, refl)
tags-Loaded (suc zero) h =
    (record { storage = 2; retentive = 0; v = Payload.b 0 }, refl, refl, refl)
tags-Loaded (suc (suc zero)) h =
    (record { storage = 0; retentive = 0; v = Payload.timer timer }, refl, refl, refl)
tags-Loaded (suc (suc (suc zero))) h =
    (record { storage = 0; retentive = 0; v = Payload.counter counter }, refl, refl, refl)
tags-Loaded (suc (suc (suc (suc n)))) h = absurd (omega arith)

abbrev coil_operand : Operand
coil_operand = record { kind = 1; type = 1; member = 0; word = 1 }

coil_valid : tag_operand coil_operand tag_section 4 1 true ≡ true
unfolding tag_operand
coil_valid = refl

destination-tag_operand_example : (destination loaded coil_operand (boolean 1)).0 ≡ ok
destination-tag_operand_example =
    destination-tag_operand loaded tag_section 4 coil_operand (boolean 1) tags-Loaded coil_valid
      (omega arith)

first_rung : rung_walk program 120 2 0 0 ≡ some 40
unfolding rung_walk next_depth
first_rung = refl

rung_walk-rung_end_example : rung_end loaded 2 0 ≡ (40, 2)
rung_walk-rung_end_example = rung_walk-rung_end loaded 2 0 0 40 first_rung
