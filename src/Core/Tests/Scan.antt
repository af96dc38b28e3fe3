-- ===== src/Core/Tests/Scan.antt =====
-- Scans of the small program.
use rsmicro.Prelude.{ℕ, ◌≡◌, refl, some, arith, false, []}
use rsmicro.Core.Types.{Runtime, Mode, ret}
use rsmicro.Core.Boundary.{IsWellCoded}
use rsmicro.Core.Image.Code.{
  CodeState, check_code, check_instr, check_branch, check_plain, take_slot, needed, operands_ok,
  first_operand_ok,
}
use rsmicro.Core.Image.Operands.{validate_operands, tag_operand}
use rsmicro.Core.Opcode.{opcode, opcode_known}
use rsmicro.Core.Words.{u32}
use rsmicro.Core.Machine.{operand_at}
use rsmicro.Core.Image.WellCoded.{check_code-IsWellCoded}
use rsmicro.Core.Scan.{scan, run_rung}
use rsmicro.Core.Scan.Rungs.{SizeAfter, run_rung-SizeAfter}
use rsmicro.Core.Scan.Ends.{ScanEnds, scan-ScanEnds}
use rsmicro.Core.Tests.Program.{hal, program, loaded, live, floats, tag_section}

abbrev nothing_yet : CodeState
nothing_yet = record {
  depth = 0;
  lane_open = [];
  lane_count = [];
  previous_slot = 0;
  have_slot = false;
}

program_checked : check_code tag_section 4 program 120 120 0 nothing_yet 0 ≡ ret 6
unfolding check_code check_instr check_plain take_slot needed operands_ok first_operand_ok
    validate_operands tag_operand opcode opcode_known u32 operand_at check_branch
program_checked = refl

check_code-IsWellCoded_example : IsWellCoded program 120
check_code-IsWellCoded_example =
    check_code-IsWellCoded tag_section 4 program 120 6 nothing_yet program_checked

abbrev running : Runtime ℕ
running = record { impl = some loaded; arena = 0; arena_size = 1000; mode = Mode.run; context = 0 }

scan-ScanEnds_example : ScanEnds running loaded (scan hal floats 5 running)
scan-ScanEnds_example =
    scan-ScanEnds hal floats 5 running loaded refl check_code-IsWellCoded_example (omega arith)

run_rung-SizeAfter_example : SizeAfter 120 40 (run_rung hal floats 121 1000 0 40 live)
run_rung-SizeAfter_example =
    run_rung-SizeAfter hal floats 121 1000 0 40 live (omega arith) (omega arith)
