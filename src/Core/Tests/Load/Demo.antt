-- ===== src/Core/Tests/Load/Demo.antt =====
-- The demo on the image of the small program, in a block at address 4099.
use rsmicro.Prelude.{◌≡◌, refl, some, length, arith, ap, sym, ◌∙◌, some-injective}
use rsmicro.Core.Words.{u16, u32}
use rsmicro.Core.Types.{ok, Runtime, Impl}
use rsmicro.Core.Machine.{operand_at}
use rsmicro.Core.Opcode.{opcode, opcode_known}
use rsmicro.Core.Lifecycle
use rsmicro.Core.Image.Layout.{required_layout}
use rsmicro.Core.Image.Load.{
  load_image, load_checked, layout_of, has_room, loaded_impl, fill_slots, load_tags, load_payload,
}
use rsmicro.Core.Image.Validate.{
  validate_image, check_header, image_crc, crc_bytes, crc_bits, descriptors_ok, apart,
  table_section, tags_ok, rung_table_ok, code_section,
}
use rsmicro.Core.Image.Code.{
  check_code, check_instr, check_plain, check_branch, take_slot, needed, operands_ok,
  first_operand_ok,
}
use rsmicro.Core.Image.Operands.{validate_operands, tag_operand}
use rsmicro.Core.Image.Sections.{
  sections, find_section, state_slot_count, count_slots, size_align8, size_add, size_mul,
}
use rsmicro.Core.Image.Rungs.{rung_boundaries_ok, rungs_walk, rung_walk, next_depth}
use rsmicro.Core.Tests.Program.{floats}
use rsmicro.Core.Tests.Load.{image_bytes, sizes, needs, at_rest, three_rungs}
use rsmicro.Ports.TestHal.{TestHal, init}
use rsmicro.Ports.Demo
use rsmicro.Ports.Demo.Ends.{Runs, main-Ran}

abbrev fresh : Runtime TestHal
unfolding Lifecycle.init
fresh = Lifecycle.init 4099 1375 init

placed_at : (load_image sizes fresh image_bytes (length image_bytes)).1.impl ≡ some at_rest
unfolding load_image load_checked layout_of has_room loaded_impl fill_slots load_tags load_payload
    validate_image check_header image_crc crc_bytes crc_bits descriptors_ok apart table_section
    tags_ok rung_table_ok code_section check_code check_instr check_plain check_branch take_slot
    needed operands_ok first_operand_ok validate_operands tag_operand opcode opcode_known operand_at
    sections find_section state_slot_count count_slots required_layout size_align8 size_add size_mul
    rung_boundaries_ok rungs_walk rung_walk next_depth u16 u32 Lifecycle.init
placed_at = refl

main-Ran_example :
    ((load_image sizes fresh image_bytes (length image_bytes)).0 ≡ ok)
    × Runs sizes floats 0 5
        (load_image sizes fresh image_bytes (length image_bytes)).1
        (Demo.main sizes floats 0 5 2 (some image_bytes) (λ need. some 4099))
unfolding Lifecycle.init
main-Ran_example =
    main-Ran sizes floats 0 5 image_bytes 1375 4099 (λ need. some 4099) needs refl (omega arith)
      λ m e.
        let same = some-injective _ _ (sym placed_at ∙ e) in
        omega (arith, three_rungs, ap (λ (x : Impl). x.rungs) same)
