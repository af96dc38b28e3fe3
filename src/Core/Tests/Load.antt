-- ===== src/Core/Tests/Load.antt =====
-- The small program as an image, and its load.
mod Demo
mod Host
use rsmicro.Prelude.{some, drop, arith, ℕ, ◌/◌, ◌%◌, ◌≡◌, refl, none, [], ◌∷◌, ◌++◌, replicate}
use rsmicro.Core.Machine.{operand_at, destination}
use rsmicro.Core.Opcode.{opcode, opcode_known}
use rsmicro.Core.Types.{ret, ok, Mode, Runtime, Impl}
use rsmicro.Core.Tags.{put}
use rsmicro.Core.Lifecycle.{
  set_mode, change_mode, prescan, lifecycle_outputs, write_outputs, output_write,
}
use rsmicro.Core.Scan.{scan}
use rsmicro.Core.Scan.Ends.{ScanEnds}
use rsmicro.Core.Image.Operation.{SameCode, load_image-scan}
use rsmicro.Core.Words.{Bytes, u16, u32}
use rsmicro.Core.Image.Layout.{Sizes, required_layout}
use rsmicro.Core.Image.Load.{
  required_memory, load_image, load_checked, layout_of, has_room, loaded_impl, fill_slots,
  load_tags, load_payload,
}
use rsmicro.Core.Image.Validate.{
  ImageInfo, validate_image, check_header, image_crc, crc_bytes, crc_bits, descriptors_ok, apart,
  table_section, tags_ok, rung_table_ok, code_section,
}
use rsmicro.Core.Image.Code.{
  check_code, check_instr, check_plain, check_branch, take_slot, needed, operands_ok,
  first_operand_ok,
}
use rsmicro.Core.Image.Operands.{validate_operands, tag_operand}
use rsmicro.Core.Image.Sections.{
  sections, find_section, state_slot_count, count_slots, size_align8, size_add, size_mul,
}
use rsmicro.Core.Image.Rungs.{rung_boundaries_ok, rungs_walk, rung_walk, next_depth}
use rsmicro.Core.Image.Room.{load_image-enough}
use rsmicro.Core.Image.Ready.{Loads, load_image-Loads}
use rsmicro.Core.Tests.Program.{hal, floats, program, tag_section, rung_table}

abbrev word : ℕ → Bytes
word n = n % 256 ∷ n / 256 % 256 ∷ n / 65536 % 256 ∷ n / 16777216 % 256 ∷ []

-- a descriptor of the section table
abbrev descriptor : ℕ → ℕ → ℕ → Bytes
descriptor kind offset size = kind ∷ 0 ∷ 0 ∷ 0 ∷ word offset ++ word size ++ replicate 8 0

-- the header up to the CRC, the CRC, the sixteen descriptors, and the three sections that are used
abbrev image_bytes : Bytes
image_bytes =
    b'R' ∷ b'S' ∷ b'M' ∷ b'1' ∷ 2 ∷ 0 ∷ 72 ∷ 0 ∷ word 636
    ++ word 1
    ++ 2 ∷ 0 ∷ 16 ∷ 0 ∷ replicate 48 0
    ++ word 3346586434
    ++ descriptor 1 392 0
    ++ descriptor 2 392 0
    ++ descriptor 3 392 0
    ++ descriptor 4 392 0
    ++ descriptor 5 392 0
    ++ descriptor 6 392 0
    ++ descriptor 7 392 0
    ++ descriptor 8 392 120
    ++ descriptor 9 392 0
    ++ descriptor 10 392 0
    ++ descriptor 11 392 0
    ++ descriptor 12 392 0
    ++ descriptor 13 392 0
    ++ descriptor 14 392 0
    ++ descriptor 15 512 84
    ++ descriptor 16 596 40
    ++ program
    ++ tag_section
    ++ 3 ∷ 0 ∷ 0 ∷ 0 ∷ rung_table

abbrev sizes : Sizes
sizes = record { impl = 1200; tag = 20; force = 12; state = 16; bool = 1 }

-- An arena of 2000 bytes at address 1003, which is not aligned.
abbrev empty : Runtime ℕ
empty = record { impl = none; arena = 1003; arena_size = 2000; mode = Mode.program; context = 0 }

load_image-Loads_example :
    Loads sizes empty image_bytes 636 (load_image sizes empty image_bytes 636)
load_image-Loads_example = load_image-Loads sizes empty image_bytes 636

-- the loader accepts the image
accepted : (load_image sizes empty image_bytes 636).0 ≡ ok
unfolding load_image load_checked layout_of has_room loaded_impl fill_slots load_tags load_payload
    validate_image check_header image_crc crc_bytes crc_bits descriptors_ok apart table_section
    tags_ok rung_table_ok code_section check_code check_instr check_plain check_branch take_slot
    needed operands_ok first_operand_ok validate_operands tag_operand opcode opcode_known operand_at
    sections find_section state_slot_count count_slots required_layout size_align8 size_add size_mul
    rung_boundaries_ok rungs_walk rung_walk next_depth u16 u32
accepted = refl

abbrev info : ImageInfo
info = record {
  major = 2;
  minor = 0;
  profile_id = 1;
  instruction_abi = 2;
  section_count = 16;
  image_size = 636;
  tag_count = 4;
  instruction_count = 6;
  rung_count = 3;
}

abbrev at_rest : Impl
at_rest =
    loaded_impl image_bytes info 2 (drop 512 image_bytes) (drop 392 image_bytes, 120)
      (drop 596 image_bytes)

placed : (load_image sizes empty image_bytes 636).1.impl ≡ some at_rest
unfolding load_image load_checked layout_of has_room loaded_impl fill_slots load_tags load_payload
    validate_image check_header image_crc crc_bytes crc_bits descriptors_ok apart table_section
    tags_ok rung_table_ok code_section check_code check_instr check_plain check_branch take_slot
    needed operands_ok first_operand_ok validate_operands tag_operand opcode opcode_known operand_at
    sections find_section state_slot_count count_slots required_layout size_align8 size_add size_mul
    rung_boundaries_ok rungs_walk rung_walk next_depth u16 u32
placed = refl

started : (set_mode (load_image sizes empty image_bytes 636).1 1).0 ≡ ok
unfolding load_image load_checked layout_of has_room loaded_impl fill_slots load_tags load_payload
    validate_image check_header image_crc crc_bytes crc_bits descriptors_ok apart table_section
    tags_ok rung_table_ok code_section check_code check_instr check_plain check_branch take_slot
    needed operands_ok first_operand_ok validate_operands tag_operand opcode opcode_known operand_at
    sections find_section state_slot_count count_slots required_layout size_align8 size_add size_mul
    rung_boundaries_ok rungs_walk rung_walk next_depth u16 u32 set_mode change_mode prescan
    lifecycle_outputs write_outputs output_write destination put
started = refl

three_rungs : at_rest.rungs ≡ 3
unfolding loaded_impl u32
three_rungs = refl

load_image-scan_example :
    let r = (set_mode (load_image sizes empty image_bytes 636).1 1).1 in
    (m' : Impl) × (r.impl ≡ some m') × SameCode at_rest m' × ScanEnds r m' (scan hal floats 5 r)
load_image-scan_example =
    load_image-scan sizes hal floats 5 empty image_bytes 636 1 at_rest accepted placed started
      (omega (arith, three_rungs))

needs : required_memory sizes image_bytes 636 ≡ ret 1375
unfolding required_memory layout_of has_room loaded_impl fill_slots load_tags load_payload
    validate_image check_header image_crc crc_bytes crc_bits descriptors_ok apart table_section
    tags_ok rung_table_ok code_section check_code check_instr check_plain check_branch take_slot
    needed operands_ok first_operand_ok validate_operands tag_operand opcode opcode_known operand_at
    sections find_section state_slot_count count_slots required_layout size_align8 size_add size_mul
    rung_boundaries_ok rungs_walk rung_walk next_depth u16 u32
needs = refl

load_image-enough_example : (load_image sizes empty image_bytes 636).0 ≡ ok
load_image-enough_example =
    load_image-enough sizes empty image_bytes 636 1375 needs refl (omega arith) (omega arith)
