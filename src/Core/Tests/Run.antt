-- ===== src/Core/Tests/Run.antt =====
-- Instructions, runs and mode changes of the small program.
use rsmicro.Prelude.{ℕ, ◌≡◌, ◌≢◌, refl, true, some, arith, []}
use rsmicro.Core.Types.{ok, Mode, Runtime}
use rsmicro.Core.Machine.{decode, destination, operand_at}
use rsmicro.Core.Run.{Point, run_until}
use rsmicro.Core.Execute.{execute}
use rsmicro.Core.Outcome.{Outcome}
use rsmicro.Core.Outcome.Execute.{execute-Outcome}
use rsmicro.Core.Frame.Onward.{Ends}
use rsmicro.Core.Frame.Runs.{run_until-Ends}
use rsmicro.Core.Lifecycle.{
  mode_of, set_mode, change_mode, prescan, lifecycle_outputs, write_outputs, output_write,
}
use rsmicro.Core.Words.{u32}
use rsmicro.Core.Tags.{put}
use rsmicro.Core.Modes.{Changed, Failure, set_mode-ok, set_mode-fails}
use rsmicro.Core.Ranges.{Ranged}
use rsmicro.Core.Ranges.Lifecycle.{lifecycle_outputs-Ranged}
use rsmicro.Core.Tests.Program.{program, loaded, clock, live, floats}

abbrev runtime : Runtime ℕ
runtime = record {
  impl = some loaded;
  arena = 0;
  arena_size = 1000;
  mode = Mode.program;
  context = 0;
}

abbrev start : Point ℕ
start = record { offset = 0; power = true; live = live }

execute-Outcome_example :
    Outcome live true (execute clock floats (decode program 20) true 1000 live)
execute-Outcome_example = execute-Outcome clock floats (decode program 20) true 1000 live

run_until-Ends_example : Ends start (run_until clock floats 121 1000 0 start)
run_until-Ends_example = run_until-Ends clock floats 1000 121 0 start (omega arith)

-- the definitions that a mode change computes with
opened : Unit {0}
unfolding set_mode change_mode prescan lifecycle_outputs write_outputs output_write destination
    operand_at put u32
opened = tt

run_mode : (set_mode runtime 1).0 ≡ ok
unfolding opened
run_mode = refl

set_mode-ok_example :
    (mode : Mode) × (mode_of 1 ≡ some mode) × Changed runtime mode (set_mode runtime 1).1
set_mode-ok_example = set_mode-ok runtime 1 run_mode

-- the prescan fails: the OTE has no tag to write to
abbrev without_tags : Runtime ℕ
without_tags = record runtime { impl = some (record loaded { tag = [] }) }

no_prescan : (set_mode without_tags 1).0 ≢ ok
unfolding opened
no_prescan e = cc

set_mode-fails_example : Failure without_tags 1 (set_mode without_tags 1)
set_mode-fails_example = set_mode-fails without_tags 1 no_prescan

lifecycle_outputs-Ranged_example : Ranged (lifecycle_outputs true loaded).1
lifecycle_outputs-Ranged_example = lifecycle_outputs-Ranged true loaded
