-- ===== src/Core/Opcode/Laws.antt =====
-- The codes that the compiler writes against those that the runtime reads.
use rsmicro.Prelude.{ℕ, ◌≡◌, ◌≢◌, true, ◌↔◌, some, arith}
use rsmicro.Core.Opcode.{Opcode, opcode, opcode_known}
use rsmicro.Core.Opcode.Generated.{generated_code}

-- The code that the compiler writes for an operation is the one that the runtime reads as this
-- operation, there is no other, and the runtime knows it.
pub generated_code-opcode :
    (op : Opcode) (n : ℕ)
    → op ≢ Opcode.unknown
    → ((generated_code op ≡ some n) ↔ (opcode n ≡ op)) × (opcode n ≡ op → opcode_known n ≡ true)
unfolding generated_code opcode opcode_known
generated_code-opcode op n h = ground arith
