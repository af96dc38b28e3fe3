-- ===== src/Core/Boundary.antt =====
-- The offsets at which the instructions of a program begin, and what validation promises of them.
use rsmicro.Prelude.{ℕ, ◌+◌, ◌≤◌, ◌<◌, ◌≡◌, ◌≢◌, arith}
use rsmicro.Core.Words.{Bytes, byte}
use rsmicro.Core.Machine.{instr_size}

-- An instruction begins at 0, and wherever another one ends.
pub data Boundary (code : Bytes) : ℕ → Type 0 where
  start : Boundary code 0
  after : {o p : ℕ} → Boundary code o → p ≡ o + instr_size code o → Boundary code p

-- No instruction before `size` has opcode 0, and the branch instructions have no operands.
pub record IsWellCoded (code : Bytes) (size : ℕ) : Type 0 where
  pub known : (o : ℕ) → Boundary code o → o < size → byte code o ≢ 0
  pub bare : (o : ℕ) → Boundary code o → o < size → 240 ≤ byte code o → byte code (o + 1) ≡ 0

-- A branch instruction takes up twelve bytes.
pub Boundary-branch :
    (code : Bytes) (size o p : ℕ)
    → IsWellCoded code size
    → Boundary code o
    → o < size
    → 240 ≤ byte code o
    → p ≡ o + 12
    → Boundary code p
Boundary-branch code size o p w b l h e = after b (omega (arith, w.bare o b l h))

pub IsWellCoded-le :
    (code : Bytes) (stop size : ℕ) → stop ≤ size → IsWellCoded code size → IsWellCoded code stop
IsWellCoded-le code stop size h w = record {
  known = λ o b l. w.known o b (omega arith);
  bare = λ o b l. w.bare o b (omega arith);
}
