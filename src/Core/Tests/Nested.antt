-- ===== src/Core/Tests/Nested.antt =====
-- A rung with a branch of two lanes, by its nesting and by its code.
use rsmicro.Prelude.{ℕ, refl, true, ◌++◌, arith}
use rsmicro.Core.Words.{Bytes}
use rsmicro.Core.Types.{Live}
use rsmicro.Core.Nested.{Sequence, end, instruction, branch, last, more, meaning}
use rsmicro.Core.Nested.Refine.{Reaches, at, run_until-meaning}
use rsmicro.Core.Run.{run_until}
use rsmicro.Core.Tests.Program.{head, tag_bytes, live, floats, clock}

-- [ XIC 0 , XIO 0 ] OTE 1
abbrev branched : Bytes
branched =
    head 240 0 0 255
    ++ head 241 0 1 255
    ++ head 1 1 2 255
    ++ tag_bytes 1 0
    ++ head 242 0 3 255
    ++ head 241 0 4 255
    ++ head 2 1 5 255
    ++ tag_bytes 1 0
    ++ head 242 0 6 255
    ++ head 243 0 7 255
    ++ head 3 1 8 255
    ++ tag_bytes 1 1

abbrev begun : Live ℕ
begun = record live { m = record (live.m) { code = branched; code_size = 132 } }

abbrev nesting : Sequence branched 132 0 132
nesting =
    branch (omega arith) refl
      (more {e = 44} (omega arith) refl (instruction (omega arith) (omega arith) (omega arith) end)
        (omega arith) refl
        (last {e = 88} (omega arith) refl
          (instruction (omega arith) (omega arith) (omega arith) end) (omega arith) refl))
      (omega arith) refl (instruction (omega arith) (omega arith) (omega arith) end)

run_until-meaning_example :
    Reaches 132
      (meaning clock floats 1000 branched 132 nesting true begun)
      (run_until clock floats 133 1000 0 (at 0 true begun))
run_until-meaning_example =
    run_until-meaning clock floats 1000 133 0 true begun nesting (omega arith)
