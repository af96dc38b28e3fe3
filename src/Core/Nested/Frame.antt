-- ===== src/Core/Nested/Frame.antt =====
-- What the description by nesting keeps, and how far a sequence reaches.
use rsmicro.Prelude.{ℕ, ◌+◌, ◌≤◌, refl, ◌∙◌, Bool, false, ◌||◌, arith}
use rsmicro.Core.Words.{Bytes}
use rsmicro.Core.Types.{Status, ok, Live, Floats, Impl}
use rsmicro.Core.Machine.{Step, decode}
use rsmicro.Core.Execute.{execute}
use rsmicro.Core.Frame.{Frame}
use rsmicro.Core.Frame.Arith.{execute-Frame}
use rsmicro.Core.Nested.{
  Sequence, Lanes, end, instruction, branch, last, more, chain, succeed, meaning, lanes_meaning,
}

mutual
  pub Sequence-le : {code : Bytes} {size o p : ℕ} → Sequence code size o p → o ≤ p
  Sequence-le end = omega arith
  Sequence-le (instruction _ _ _ rest) = let k = Sequence-le rest in omega arith
  Sequence-le (branch _ _ lanes _ _ rest) =
      let j = Lanes-le lanes in let k = Sequence-le rest in omega arith

  pub Lanes-le : {code : Bytes} {size o p : ℕ} → Lanes code size o p → o + 24 ≤ p
  Lanes-le (last _ _ lane _ _) = let k = Sequence-le lane in omega arith
  Lanes-le (more _ _ lane _ _ rest) =
      let j = Sequence-le lane in let k = Lanes-le rest in omega arith

module _ {W : Type 0} where
  chain-Frame :
      (m : Impl) (power : Bool) (r : Step W) (next : Bool → Live W → Step W)
      → Frame m r.live.m
      → ((q : Bool) (s : Live W) → Frame s.m (next q s).live.m)
      → Frame m (chain power r next).live.m
  chain-Frame m power r next h k = go r.status
    where
      go : (st : Status) → Frame m (chain power (record r { status = st }) next).live.m
      go ok = k r.power r.live ∙ h
      go _ = h

module _ {W : Type 0} (now : W → ℕ × W) (fl : Floats) (tick : ℕ) (code : Bytes) (size : ℕ) where
  mutual
    unfolding meaning

    pub meaning-Frame :
        {o p : ℕ} (seq : Sequence code size o p) (power : Bool) (s : Live W)
        → Frame s.m (meaning now fl tick code size seq power s).live.m
    meaning-Frame end power s = refl
    meaning-Frame (instruction {o = o} _ _ _ rest) power s =
        let r = execute now fl (decode code o) power tick s in
        chain-Frame s.m r.power r (meaning now fl tick code size rest)
          (execute-Frame now fl (decode code o) power tick s) (meaning-Frame rest)
    meaning-Frame (branch _ _ lanes _ _ rest) power s =
        let r = lanes_meaning now fl tick code size lanes power false s in
        chain-Frame s.m r.power r (meaning now fl tick code size rest)
          (lanes_meaning-Frame lanes power false s) (meaning-Frame rest)

    pub lanes_meaning-Frame :
        {o p : ℕ} (lanes : Lanes code size o p) (input merged : Bool) (s : Live W)
        → Frame s.m (lanes_meaning now fl tick code size lanes input merged s).live.m
    lanes_meaning-Frame (last _ _ lane _ _) input merged s =
        chain-Frame s.m input (meaning now fl tick code size lane input s)
          (λ q. succeed (merged || q)) (meaning-Frame lane input s) (λ q t. refl)
    lanes_meaning-Frame (more _ _ lane _ _ rest) input merged s =
        chain-Frame s.m input (meaning now fl tick code size lane input s)
          (λ q. lanes_meaning now fl tick code size rest input (merged || q))
          (meaning-Frame lane input s) (λ q t. lanes_meaning-Frame rest input (merged || q) t)
