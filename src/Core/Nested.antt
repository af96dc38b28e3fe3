-- ===== src/Core/Nested.antt =====
-- The rungs of a ladder program by their nesting: instructions one after the other, and branches
-- whose lanes are such sequences again.
pub mod Frame
pub mod Refine
use rsmicro.Prelude.{ℕ, ◌+◌, ◌<◌, ◌≡◌, ◌≢◌, Bool, false, ◌||◌}
use rsmicro.Core.Words.{Bytes, byte}
use rsmicro.Core.Types.{Status, ok, faulted, Live, Floats}
use rsmicro.Core.Machine.{Step, decode, instr_size}
use rsmicro.Core.Execute.{execute}

-- A sequence in the bytes of `code` from one offset to another, below `size`. An instruction that is
-- no branch has an opcode from 1 to 239; 240 begins a branch and 243 ends it, and 241 and 242 are
-- the ends of a lane.
mutual
  pub data Sequence (code : Bytes) (size : ℕ) : ℕ → ℕ → Type 0 where
    end : {o : ℕ} → Sequence code size o o
    instruction :
        {o p : ℕ}
        → o < size
        → byte code o ≢ 0
        → byte code o < 240
        → Sequence code size (o + instr_size code o) p
        → Sequence code size o p
    branch :
        {o a p : ℕ}
        → o < size
        → byte code o ≡ 240
        → Lanes code size (o + instr_size code o) a
        → a < size
        → byte code a ≡ 243
        → Sequence code size (a + 12) p
        → Sequence code size o p

  -- One lane or more.
  pub data Lanes (code : Bytes) (size : ℕ) : ℕ → ℕ → Type 0 where
    last :
        {o e : ℕ}
        → o < size
        → byte code o ≡ 241
        → Sequence code size (o + 12) e
        → e < size
        → byte code e ≡ 242
        → Lanes code size o (e + 12)
    more :
        {o e a : ℕ}
        → o < size
        → byte code o ≡ 241
        → Sequence code size (o + 12) e
        → e < size
        → byte code e ≡ 242
        → Lanes code size (e + 12) a
        → Lanes code size o a

module _ {W : Type 0} where
  -- The next part after one that returned OK; after a fault the power is `power`.
  abbrev pub chain : Bool → Step W → (Bool → Live W → Step W) → Step W
  chain power r next = elim r.status [
    | ok ↦ next r.power r.live
    | _ ↦ record { status = faulted; power = power; live = r.live }
  ]

  abbrev pub succeed : Bool → Live W → Step W
  succeed power s = record { status = ok; power = power; live = s }

-- What a sequence does, with power at its beginning or without. Every lane of a branch begins with
-- the power before the branch, and the power after the branch is that after any of its lanes.
module _ {W : Type 0} (now : W → ℕ × W) (fl : Floats) (tick : ℕ) (code : Bytes) (size : ℕ) where
  unfoldable mutual
    pub meaning : {o p : ℕ} → Sequence code size o p → Bool → Live W → Step W
    meaning end power s = succeed power s
    meaning (instruction {o = o} _ _ _ rest) power s =
        let r = execute now fl (decode code o) power tick s in chain r.power r (meaning rest)
    meaning (branch _ _ lanes _ _ rest) power s =
        let r = lanes_meaning lanes power false s in chain r.power r (meaning rest)

    pub lanes_meaning : {o p : ℕ} → Lanes code size o p → Bool → Bool → Live W → Step W
    lanes_meaning (last _ _ lane _ _) input merged s =
        chain input (meaning lane input s) (λ q. succeed (merged || q))
    lanes_meaning (more _ _ lane _ _ rest) input merged s =
        chain input (meaning lane input s) (λ q. lanes_meaning rest input (merged || q))
