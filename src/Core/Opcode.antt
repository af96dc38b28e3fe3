-- ===== src/Core/Opcode.antt =====
-- runtime/core/include/rsmicro/rsm_opcodes.h: the instruction codes, and `opcode_known`.
pub mod Generated
pub mod Laws
use rsmicro.Prelude.{ℕ, ◌==◌, leb, if◌then◌else◌, Bool, ◌&&◌, ◌||◌}

pub data Opcode : Type 0 where
  xic xio ote otl otu ons ton ctu ctd res eq ne gt ge lt le mov clr add sub mul div neg abs : Opcode
  branch_begin branch_lane_begin branch_lane_end branch_end unknown : Opcode

abbrev pub branch_begin_code : ℕ
branch_begin_code = 240

abbrev pub branch_lane_begin_code : ℕ
branch_lane_begin_code = 241

abbrev pub branch_lane_end_code : ℕ
branch_lane_end_code = 242

abbrev pub branch_end_code : ℕ
branch_end_code = 243

unfoldable pub opcode : ℕ → Opcode
opcode n =
    if n == 1
    then Opcode.xic
    else if n == 2
    then Opcode.xio
    else if n == 3
    then Opcode.ote
    else if n == 4
    then Opcode.otl
    else if n == 5
    then Opcode.otu
    else if n == 6
    then Opcode.ons
    else if n == 16
    then Opcode.ton
    else if n == 17
    then Opcode.ctu
    else if n == 18
    then Opcode.ctd
    else if n == 19
    then Opcode.res
    else if n == 32
    then Opcode.eq
    else if n == 33
    then Opcode.ne
    else if n == 34
    then Opcode.gt
    else if n == 35
    then Opcode.ge
    else if n == 36
    then Opcode.lt
    else if n == 37
    then Opcode.le
    else if n == 48
    then Opcode.mov
    else if n == 49
    then Opcode.clr
    else if n == 50
    then Opcode.add
    else if n == 51
    then Opcode.sub
    else if n == 52
    then Opcode.mul
    else if n == 53
    then Opcode.div
    else if n == 54
    then Opcode.neg
    else if n == 55
    then Opcode.abs
    else if n == 240
    then Opcode.branch_begin
    else if n == 241
    then Opcode.branch_lane_begin
    else if n == 242
    then Opcode.branch_lane_end
    else if n == 243
    then Opcode.branch_end
    else Opcode.unknown

-- The four ranges of `opcode_known`.
unfoldable pub opcode_known : ℕ → Bool
opcode_known n =
    (leb 1 n && leb n 6)
    || (leb 16 n && leb n 19)
    || (leb 32 n && leb n 55)
    || (leb 240 n && leb n 243)
