-- ===== src/Core/Image/Rungs.antt =====
-- `rung_boundaries_ok`, and what it promises to the scan.
use rsmicro.Prelude.{
  ℕ, zero, suc, ◌+◌, ◌-◌, ◌*◌, ◌≡◌, ◌==◌, ltb, if◌then◌else◌, Bool, false, Option, none, some,
  arith, inl, inr, Bool-cases, Option-cases,
}
use rsmicro.Core.Words.{Bytes, byte, u32}
use rsmicro.Core.Types.{Impl}
use rsmicro.Core.Machine.{instr_size}
use rsmicro.Core.Opcode.{branch_begin_code, branch_end_code}
use rsmicro.Core.Scan.{rung_end}

-- the depth after an instruction, if it is not a branch end without its beginning
unfoldable pub next_depth : ℕ → ℕ → Option ℕ
next_depth op depth =
    if op == branch_begin_code
    then some (depth + 1)
    else if op == branch_end_code
    then (if depth == 0 then none else some (depth - 1))
    else some depth

-- The loop over the `left` instructions of a rung that are to come: the offset after them, or
-- `none` where `rung_boundaries_ok` returns false. The depth is below 2 ^ 32, as `left` is.
unfoldable pub rung_walk : Bytes → ℕ → ℕ → ℕ → ℕ → Option ℕ
rung_walk code size zero offset depth = if depth == 0 then some offset else none
rung_walk code size (suc left) offset depth =
    if ltb size (offset + 12) then none else elim (next_depth (byte code offset) depth) [
      | none ↦ none
      | some depth' ↦ rung_walk code size left (offset + instr_size code offset) depth'
    ]

-- The loop over the `left` rungs from number `rung` on.
unfoldable pub rungs_walk : Bytes → ℕ → Bytes → ℕ → ℕ → ℕ → Bool
rungs_walk code size rungs zero rung offset = offset == size
rungs_walk code size rungs (suc left) rung offset =
    elim (rung_walk code size (u32 rungs (4 + rung * 12 + 8)) offset 0) [
      | none ↦ false
      | some offset' ↦ rungs_walk code size rungs left (rung + 1) offset'
    ]

unfoldable pub rung_boundaries_ok : Bytes → ℕ → Bytes → Bool
rung_boundaries_ok code size rungs = rungs_walk code size rungs (u32 rungs 0) 0 0

-- The scan finds a rung that the boundary check walked through: it counts as many instructions as
-- the rung table says, so it does not report RUNG_RANGE, and ends the rung where the check does.
pub rung_walk-rung_end :
    (m : Impl) (count offset depth end : ℕ)
    → rung_walk m.code m.code_size count offset depth ≡ some end
    → rung_end m count offset ≡ (end, count)
unfolding rung_walk rung_end
rung_walk-rung_end m zero offset depth end h = ground arith
rung_walk-rung_end m (suc left) offset depth end h =
    elim (Bool-cases (ltb m.code_size (offset + 12))) [
      | inl e ↦ ground arith
      | inr e ↦ elim (Option-cases (next_depth (byte m.code offset) depth)) [
        | inl e' ↦ ground arith
        | inr (depth', e') ↦
            ground (arith, rung_walk-rung_end m left (offset + instr_size m.code offset) depth' end)
      ]
    ]
