-- ===== src/Ports/Demo.antt =====
-- runtime/ports/native_test/src/rsmcore_demo.c: one scan of an image on the HAL of the tests.
pub mod Ends
use rsmicro.Prelude.{ℕ, not, length, ◌==◌, if◌then◌else◌, Option, none, some}
use rsmicro.Core.Words.{Bytes}
use rsmicro.Core.Types.{Status, ok, Result, ret, err, Diagnostics, Fault, Runtime, Floats}
use rsmicro.Core.Tags.Access.{runtime_get_diagnostics, runtime_last_fault}
use rsmicro.Core.Lifecycle
use rsmicro.Core.Lifecycle.{set_mode, deinit}
use rsmicro.Core.Scan.{scan}
use rsmicro.Core.Image.Layout.{Sizes}
use rsmicro.Core.Image.Load.{load_image, required_memory}
use rsmicro.Ports.TestHal.{TestHal, test_hal, init}

-- How `main` ends. `fault` has the fault that is printed, or no fault for the null pointer, and
-- `done` what is printed at the end and the runtime that is left. After a `malloc` of the arena that
-- fails, `rsm_runtime_last_fault` reads a runtime that nothing has set: `unset`.
pub data Outcome : Type 0 where
  usage unreadable invalid_image unset : Outcome
  fault : Result Fault → Outcome
  done : Result Diagnostics → ℕ → Runtime TestHal → Outcome

abbrev pub exit_code : Outcome → Option ℕ
exit_code usage = some 2
exit_code unreadable = some 2
exit_code invalid_image = some 1
exit_code unset = none
exit_code (fault _) = some 1
exit_code (done _ _ _) = some 0

module _ (z : Sizes) (fl : Floats) (word fuel : ℕ) where
  abbrev pub failed : Runtime TestHal → Option Outcome
  failed r = some (fault (runtime_last_fault r))

  -- the calls after the scan
  abbrev pub report : Runtime TestHal → Outcome
  report r = done (runtime_get_diagnostics r) r.context.writes (deinit (set_mode r 0).1)

  abbrev pub scanned : Option (Status × Runtime TestHal) → Option Outcome
  scanned none = none
  scanned (some (st, r)) = elim st [ ok ↦ some (report r) | _ ↦ failed r ]

  abbrev pub started : Status × Runtime TestHal → Option Outcome
  started (st, r) = elim st [ ok ↦ scanned (scan (test_hal word) fl fuel r) | _ ↦ failed r ]

  abbrev pub loaded : Status × Runtime TestHal → Option Outcome
  loaded (st, r) = elim st [ ok ↦ started (set_mode r 1) | _ ↦ failed r ]

  -- `main` behind `malloc(need)`, which has returned address `a`.
  unfoldable pub run_image : Bytes → ℕ → ℕ → Option Outcome
  run_image x need a = loaded (load_image z (Lifecycle.init a need init) x (length x))

  -- `file` is what `fopen`, `ftell`, `malloc` and `fread` give of the file, and `malloc` is the second
  -- call of it.
  unfoldable pub main : ℕ → Option Bytes → (ℕ → Option ℕ) → Option Outcome
  main argc file malloc = if not (argc == 2) then some usage else elim file [
    | none ↦ some unreadable
    | some x ↦ elim (required_memory z x (length x)) [
      | err _ ↦ some invalid_image
      | ret need ↦ elim (malloc need) [ none ↦ some unset | some a ↦ run_image x need a ]
    ]
  ]
