-- ===== src/Core/Tests/Load/Host.antt =====
-- The small program after a load, a start and a force.
use rsmicro.Prelude.{◌+◌, ◌%◌, ◌^◌, ℕ, ◌≡◌, refl, true, some, arith, get_elem?}
use rsmicro.Core.Words.{u16, u32}
use rsmicro.Core.Types.{ok, Hal, Mode, boolean, type_of, tag_type, ret, Runtime, Impl, Payload, Tag}
use rsmicro.Core.Tags.{put, value}
use rsmicro.Core.Tags.Force.{force_tag}
use rsmicro.Core.Tags.Access.{runtime_force_tag, runtime_read_tag, runtime_get_diagnostics}
use rsmicro.Core.Tags.Forces.{enabled_count}
use rsmicro.Core.Lifecycle.{
  init, set_mode, change_mode, prescan, lifecycle_outputs, write_outputs, output_write,
}
use rsmicro.Core.Scan.{scan}
use rsmicro.Core.Scan.Ends.{ScanEnds}
use rsmicro.Core.Scan.TestMode.{silent}
use rsmicro.Core.Host.{Reachable, begun, next, load, mode, force}
use rsmicro.Core.Host.Calls.{
  Reachable-scan, Reachable-read_tag, Reachable-active_force_count, Reachable-silent,
}
use rsmicro.Core.Machine.{operand_at, destination}
use rsmicro.Core.Opcode.{opcode, opcode_known}
use rsmicro.Core.Image.Layout.{required_layout}
use rsmicro.Core.Image.Load.{
  load_image, load_checked, layout_of, has_room, loaded_impl, fill_slots, load_tags, load_payload,
}
use rsmicro.Core.Image.Validate.{
  validate_image, check_header, image_crc, crc_bytes, crc_bits, descriptors_ok, apart,
  table_section, tags_ok, rung_table_ok, code_section,
}
use rsmicro.Core.Image.Code.{
  check_code, check_instr, check_plain, check_branch, take_slot, needed, operands_ok,
  first_operand_ok,
}
use rsmicro.Core.Image.Operands.{validate_operands, tag_operand}
use rsmicro.Core.Image.Sections.{
  sections, find_section, state_slot_count, count_slots, size_align8, size_add, size_mul,
}
use rsmicro.Core.Image.Rungs.{rung_boundaries_ok, rungs_walk, rung_walk, next_depth}
use rsmicro.Core.Tests.Program.{hal, floats}
use rsmicro.Core.Tests.Load.{image_bytes, sizes, empty, at_rest}

abbrev ran : Runtime ℕ
ran = (set_mode (load_image sizes empty image_bytes 636).1 1).1

abbrev forced : Runtime ℕ
forced = (runtime_force_tag ran 0 (boolean 5)).1

forced-Reachable : Reachable sizes hal floats forced
unfolding init
forced-Reachable =
    next (next (next (begun 1003 2000 0) (load image_bytes 636)) (mode 1)) (force 0 (boolean 5))

abbrev begun_impl : Impl
begun_impl = (force_tag (lifecycle_outputs true at_rest).1 0 (boolean 5)).1

-- the definitions that the load and the start compute with
opened : Unit {0}
unfolding load_image load_checked layout_of has_room loaded_impl fill_slots load_tags load_payload
    validate_image check_header image_crc crc_bytes crc_bits descriptors_ok apart table_section
    tags_ok rung_table_ok code_section check_code check_instr check_plain check_branch take_slot
    needed operands_ok first_operand_ok validate_operands tag_operand opcode opcode_known operand_at
    sections find_section state_slot_count count_slots required_layout size_align8 size_add size_mul
    rung_boundaries_ok rungs_walk rung_walk next_depth u16 u32 set_mode change_mode prescan
    lifecycle_outputs write_outputs output_write destination put runtime_force_tag force_tag value
    runtime_read_tag
opened = tt

forced_impl : forced.impl ≡ some begun_impl
unfolding opened
forced_impl = refl

forced_rungs : begun_impl.rungs ≡ 3
unfolding opened
forced_rungs = refl

Reachable-scan_example : ScanEnds forced begun_impl (scan hal floats 5 forced)
Reachable-scan_example =
    Reachable-scan sizes hal floats forced begun_impl 5 forced-Reachable forced_impl
      (omega (arith, forced_rungs))

abbrev first : Tag
first = record { storage = 1; retentive = 0; v = Payload.b 0 }

first_tag : get_elem? begun_impl.tag 0 ≡ some first
unfolding opened
first_tag = refl

first_value : runtime_read_tag forced 0 ≡ ret (boolean 1)
unfolding opened
first_value = refl

Reachable-read_tag_example : type_of (boolean 1) ≡ tag_type first
Reachable-read_tag_example =
    Reachable-read_tag sizes hal floats forced begun_impl 0 first (boolean 1) forced-Reachable
      forced_impl first_tag first_value

forced_diagnostics : runtime_get_diagnostics forced ≡ ret begun_impl.diag
unfolding opened runtime_get_diagnostics
forced_diagnostics = refl

Reachable-active_force_count_example :
    begun_impl.diag.active_force_count ≡ enabled_count begun_impl.force % 2 ^ 32
Reachable-active_force_count_example =
    Reachable-active_force_count sizes hal floats forced begun_impl begun_impl.diag forced-Reachable
      forced_impl forced_diagnostics

-- the same in TEST, with a HAL that counts the output writes
abbrev writer : Hal ℕ
writer = record hal { write_output = some (λ w e v. (ok, w + 1)) }

abbrev tested : Runtime ℕ
tested = (set_mode (load_image sizes empty image_bytes 636).1 2).1

abbrev tested_impl : Impl
tested_impl = (lifecycle_outputs true at_rest).1

tested-Reachable : Reachable sizes writer floats tested
unfolding init
tested-Reachable = next (next (begun 1003 2000 0) (load image_bytes 636)) (mode 2)

tested_state :
    (tested.impl ≡ some tested_impl) × (tested.mode ≡ Mode.test) × (tested_impl.rungs ≡ 3)
unfolding opened
tested_state = (refl, refl, refl)

Reachable-silent_example : scan writer floats 5 tested ≡ scan (silent writer) floats 5 tested
Reachable-silent_example =
    Reachable-silent sizes writer floats tested tested_impl 5 tested-Reachable tested_state.0
      tested_state.1 (omega (arith, tested_state.2))
