-- ===== src/Conformance/Runner.antt =====
-- How a fixture is run, after runtime/core/tests/test_conformance.c.
use rsmicro.Prelude.{
  ℕ, ◌==◌, if◌then◌else◌, Bool, true, false, ◌&&◌, List, [], ◌∷◌, Option, none, some, length,
}
use rsmicro.Core.Types.{Status, Result, ret, err, Value, Runtime, Floats}
use rsmicro.Conformance.Fixture.{FixtureStep, Fixture}
use rsmicro.Prelude.Int.{◌+ℤ◌, ◌-ℤ◌, ◌*ℤ◌, ◌/ℤ◌}
use rsmicro.Core.Words.{u16, u32, i32}
use rsmicro.Core.Opcode.{opcode, opcode_known}
use rsmicro.Core.Tags.{value, put, read_member}
use rsmicro.Core.Tags.Force.{force_tag, clear_force, clear_all_forces}
use rsmicro.Core.Tags.Access.{
  runtime_read_tag, runtime_write_tag, runtime_read_member, runtime_force_tag, runtime_clear_force,
  runtime_clear_all_forces, runtime_clear_write_trace, runtime_get_write_trace,
  runtime_get_diagnostics, runtime_last_fault,
}
use rsmicro.Core.Machine.{
  operand_at, decode, operand, destination, lower_bound, state_for_slot, fail, refuse, settle,
  commit, arity_fault,
}
use rsmicro.Core.Execute.{dispatch, execute}
use rsmicro.Core.Execute.Bits.{exec_contact, exec_coil, exec_ons}
use rsmicro.Core.Execute.Timing.{
  accumulate, ton_step, count_step, counter_step, reset_states, clear_states, exec_ton,
  exec_counter, exec_res,
}
use rsmicro.Core.Execute.Arith.{
  int_math, float_math, int_unary, convert, exec_compare, exec_clr, exec_mov, conclude, math_on,
  exec_math, unary_on, exec_unary,
}
use rsmicro.Core.Run.{branch_fault, close_branch, close_lane, run_one, run_until, run_lanes}
use rsmicro.Core.Lifecycle.{
  is_loaded, output_write, write_outputs, lifecycle_outputs, prescan, postscan, change_mode,
  set_mode, get_mode, init, deinit, unload_program,
}
use rsmicro.Core.Scan.{
  summarise, rung_end, scan_fault, current_input, read_one, input_step, scan_inputs, output_step,
  output_loop, scan_outputs, scan_end, run_rung, scan_rungs, scan_passes, scan_live, scan,
}
use rsmicro.Core.Image.Sections.{
  size_add, size_mul, size_align8, find_section, sections, count_slots, state_slot_count,
}
use rsmicro.Core.Image.Layout.{Sizes, required_layout}
use rsmicro.Core.Image.Operands.{
  member_type, tag_operand, scalar_operand, validate_compare, validate_math, validate_unary,
  validate_operands,
}
use rsmicro.Core.Image.Rungs.{next_depth, rung_walk, rungs_walk, rung_boundaries_ok}
use rsmicro.Core.Image.Code.{
  check_branch, needed, take_slot, operands_ok, first_operand_ok, check_plain, check_instr,
  check_code,
}
use rsmicro.Core.Image.Validate.{
  crc_bits, crc_bytes, image_crc, apart, descriptors_ok, table_section, tags_ok, rung_table_ok,
  code_section, check_header, validate_image,
}
use rsmicro.Core.Image.Load.{
  layout_of, required_memory, has_room, fill_slots, load_payload, load_tags, loaded_impl,
  load_checked, load_image,
}
use rsmicro.Core.Snapshot.{
  snapshot_member, snapshot_each, snapshot_composite, members_loop, snapshot_tag, snapshot_tags,
  snapshot_state, snapshot_each_state, snapshot_states, snapshot_rungs, snapshot_impl, snapshot,
  snapshot_members,
}
use rsmicro.Conformance.Observe.{
  World, fixture_hal, assert_trace, assert_values, expects, is_ok, mode_code, nothing,
  observe_active, observer, status_code,
}

-- The sizes that a compiler for a 64-bit target may choose.
abbrev sizes : Sizes
sizes = record { impl = 1200; tag = 20; force = 12; state = 16; bool = 1 }

abbrev is_invalid : {A : Type 0} → Result A → Bool
is_invalid (ret _) = false
is_invalid (err st) = status_code st == 2

-- A scan that needs more fuel than there is here counts as a failure: 99 is no status.
abbrev scanned : Runtime World → Option (Status × Runtime World) → ℕ × Runtime World
scanned r none = (99, r)
scanned r (some (st, r')) = (status_code st, r')

abbrev coded : Status × Runtime World → ℕ × Runtime World
coded (st, r) = (status_code st, r)

abbrev read_code : Result Value → ℕ
read_code (ret _) = 0
read_code (err st) = status_code st

abbrev operate : Floats → Runtime World → FixtureStep → Fixture → ℕ × Runtime World
operate floats r s f =
    if s.operation == 1
    then coded (prescan r)
    else if s.operation == 2
    then coded (postscan r)
    else if s.operation == 3
    then scanned r (scan fixture_hal floats 40 r)
    else if s.operation == 4
    then coded (runtime_write_tag r s.tag s.value)
    else if s.operation == 5
    then coded (set_mode r 1)
    else if s.operation == 6
    then coded (set_mode r 0)
    else if s.operation == 7
    then coded (set_mode r 2)
    else if s.operation == 8
    then coded (runtime_force_tag r s.tag s.value)
    else if s.operation == 9
    then coded (runtime_clear_force r s.tag)
    else if s.operation == 10
    then coded (runtime_clear_all_forces r)
    else if s.operation == 11
    then coded (unload_program r)
    else if s.operation == 12
    then coded (load_image sizes r f.image (length f.image))
    else if s.operation == 13
    then (read_code (runtime_read_tag r s.tag), r)
    else (1, r)

-- The public functions refuse a runtime with nothing loaded.
abbrev assert_unloaded : Floats → Runtime World → Bool
assert_unloaded floats r =
    is_invalid (runtime_read_tag r 0)
    && (scanned r (scan fixture_hal floats 40 r)).0 == 2
    && status_code (snapshot observer r nothing).0 == 2
    && is_invalid (runtime_get_diagnostics r)
    && status_code (runtime_get_write_trace r 0).0 == 2

abbrev assert_step : Floats → Runtime World → FixtureStep → Bool
assert_step floats r s =
    if is_loaded r
    then assert_values r s
      && assert_trace r s
      && observe_active r s
      && expects s.expected_output_writes r.context.output_writes
    else assert_unloaded floats r

-- The loop over the steps, each at its time and with an empty write trace.
abbrev run_steps : Floats → Fixture → List FixtureStep → Runtime World → Bool
run_steps floats f [] r = true
run_steps floats f (s ∷ ss) r =
    let timed = record r { context = record (r.context) { time = s.time_us } } in
    let cleared = if is_loaded r then (runtime_clear_write_trace timed).1 else timed in
    let (code, r') = operate floats cleared s f in
    code == s.expected_status
    && expects s.expected_mode (mode_code (get_mode r'))
    && assert_step floats r' s
    && run_steps floats f ss r'

-- A fixture, from `rsm_runtime_init` on, in an arena of 64 kB.
unfoldable pub passes : Floats → Fixture → Bool
unfolding ◌+ℤ◌ ◌-ℤ◌ ◌*ℤ◌ ◌/ℤ◌ u16 u32 i32 opcode opcode_known value put read_member force_tag
    clear_force clear_all_forces runtime_read_tag runtime_write_tag runtime_read_member
    runtime_force_tag runtime_clear_force runtime_clear_all_forces runtime_clear_write_trace
    runtime_get_write_trace runtime_get_diagnostics runtime_last_fault operand_at decode operand
    destination lower_bound state_for_slot fail refuse settle commit arity_fault dispatch execute
    exec_contact exec_coil exec_ons accumulate ton_step count_step counter_step reset_states
    clear_states exec_ton exec_counter exec_res int_math float_math int_unary convert exec_compare
    exec_clr exec_mov conclude math_on exec_math unary_on exec_unary branch_fault close_branch
    close_lane run_one run_until run_lanes output_write write_outputs lifecycle_outputs prescan
    postscan change_mode set_mode get_mode init deinit unload_program summarise rung_end scan_fault
    current_input read_one input_step scan_inputs output_step output_loop scan_outputs scan_end
    run_rung scan_rungs scan_passes scan_live scan size_add size_mul size_align8 find_section
    sections count_slots state_slot_count required_layout member_type tag_operand scalar_operand
    validate_compare validate_math validate_unary validate_operands next_depth rung_walk rungs_walk
    rung_boundaries_ok check_branch needed take_slot operands_ok first_operand_ok check_plain
    check_instr check_code crc_bits crc_bytes image_crc apart descriptors_ok table_section tags_ok
    rung_table_ok code_section check_header validate_image layout_of required_memory has_room
    fill_slots load_payload load_tags loaded_impl load_checked load_image snapshot_member
    snapshot_each snapshot_composite members_loop snapshot_tag snapshot_tags snapshot_state
    snapshot_each_state snapshot_states snapshot_rungs snapshot_impl snapshot snapshot_members
passes floats f =
    let (st, r) =
      load_image sizes (init 4096 65536 (record { time = 0; output_writes = 0 })) f.image
        (length f.image) in
    is_ok st && run_steps floats f f.steps r
