-- ===== src/Core/Opcode/Generated.antt =====
-- runtime/generated/rsm_opcodes.h: the codes that the compiler writes.
use rsmicro.Prelude.{ℕ, Option, none, some}
use rsmicro.Core.Opcode.{Opcode}

-- The RSM_OP_* of an operation; there is none for a code that is not known.
unfoldable pub generated_code : Opcode → Option ℕ
generated_code Opcode.branch_begin = some 240
generated_code Opcode.branch_lane_begin = some 241
generated_code Opcode.branch_lane_end = some 242
generated_code Opcode.branch_end = some 243
generated_code Opcode.xic = some 1
generated_code Opcode.xio = some 2
generated_code Opcode.ote = some 3
generated_code Opcode.otl = some 4
generated_code Opcode.otu = some 5
generated_code Opcode.ons = some 6
generated_code Opcode.ton = some 16
generated_code Opcode.ctu = some 17
generated_code Opcode.ctd = some 18
generated_code Opcode.res = some 19
generated_code Opcode.eq = some 32
generated_code Opcode.ne = some 33
generated_code Opcode.gt = some 34
generated_code Opcode.ge = some 35
generated_code Opcode.lt = some 36
generated_code Opcode.le = some 37
generated_code Opcode.mov = some 48
generated_code Opcode.clr = some 49
generated_code Opcode.add = some 50
generated_code Opcode.sub = some 51
generated_code Opcode.mul = some 52
generated_code Opcode.div = some 53
generated_code Opcode.neg = some 54
generated_code Opcode.abs = some 55
generated_code Opcode.unknown = none
