-- ===== src/Core/Nested/Refine.antt =====
-- `run_until` does what a program means by its nesting.
use rsmicro.Prelude.{
  ℕ, zero, suc, ◌+◌, ◌-◌, ◌≤◌, ◌<◌, ◌≡◌, ◌≢◌, ◌⊎◌, inl, inr, refl, sym, ◌∙◌, subst, Bool, false,
  lt→ltb, ◌||◌, none, some, arith,
}
use rsmicro.Core.Words.{Bytes, byte}
use rsmicro.Core.Types.{Status, ok, Live, Floats}
use rsmicro.Core.Machine.{Step, decode, instr_size}
use rsmicro.Core.Execute.{execute}
use rsmicro.Core.Frame.{Frame}
use rsmicro.Core.Frame.Arith.{execute-Frame}
use rsmicro.Core.Frame.Onward.{Frame-code, Frame-code_size}
use rsmicro.Core.Run.{
  Point, Ran, ◌>>=◌, forward, continue, close_lane, close_branch, run_one, run_until, run_lanes,
}
use rsmicro.Core.Nested.{
  Sequence, Lanes, end, instruction, branch, last, more, chain, succeed, meaning, lanes_meaning,
}
use rsmicro.Core.Nested.Frame.{Sequence-le, Lanes-le, meaning-Frame, lanes_meaning-Frame}

-- a property of two things that go on from the same status
both_ind {ℓ κ μ} :
    {A : Type ℓ} {B : Type κ} (R : A → B → Type μ) (st : Status) (x y : A) (x' y' : B)
    → (st ≡ ok → R x x')
    → (st ≢ ok → R y y')
    → R (elim st [ ok ↦ x | _ ↦ y ]) (elim st [ ok ↦ x' | _ ↦ y' ])
both_ind R ok x y x' y' h k = h refl
both_ind R _ x y x' y' h k = k (λ e. cc)

module _ {W : Type 0} where
  abbrev pub at : ℕ → Bool → Live W → Point W
  at o power s = record { offset = o; power = power; live = s }

  -- The run has ended with the status, the power and the runtime of `r`, and at `e` if it is OK.
  abbrev pub Reaches : ℕ → Step W → Ran W → Type 0
  Reaches e r none = ⊥
  Reaches e r (some (st, q)) =
      (st ≡ r.status) × (q.power ≡ r.power) × (q.live ≡ r.live) × (r.status ≡ ok → q.offset ≡ e)

  Reaches-at :
      (e : ℕ) (r : Step W) (q : Point W)
      → (q.power ≡ r.power) × (q.live ≡ r.live) × (r.status ≡ ok → q.offset ≡ e)
      → r.status ≡ ok
      → at e r.power r.live ≡ q
  Reaches-at e r q (h, k, l) c =
      λ i. record { offset = sym (l c) i; power = sym h i; live = sym k i }

  continue-Reaches :
      (e e' : ℕ) (r : Step W) (next : Bool → Live W → Step W) (go : Point W → Ran W) (x : Ran W)
      → Reaches e r x
      → (r.status ≡ ok → Reaches e' (next r.power r.live) (go (at e r.power r.live)))
      → Reaches e' (chain r.power r next) (x >>= continue go)
  continue-Reaches e e' r next go none h k = elim h [ ]
  continue-Reaches e e' r next go (some (st, q)) (c, f, g, j) k =
      subst (λ y. Reaches e' (chain r.power r next) (continue go (y, q))) (sym c)
        (both_ind (Reaches e') r.status _ _ _ _
          (λ o.
            subst (λ y. Reaches e' (next r.power r.live) (go y)) (Reaches-at e r q (f, g, j) o)
              (k o))
          (λ n. (refl, f, g, λ o. cc)))

  close_lane-Reaches :
      (now : W → ℕ × W) (e e' : ℕ) (input : Bool) (r : Step W) (next : Bool → Live W → Step W)
      (go : Point W → Ran W) (x : Ran W)
      → Reaches e r x
      → e < r.live.m.code_size
      → byte r.live.m.code e ≡ 242
      → (r.status ≡ ok → Reaches e' (next r.power r.live) (go (at e r.power r.live)))
      → Reaches e' (chain input r next) (x >>= close_lane now input go)
  unfolding close_lane
  close_lane-Reaches now e e' input r next go none h l b k = elim h [ ]
  close_lane-Reaches now e e' input r next go (some (st, q)) (c, f, g, j) l b k =
      subst (λ y. Reaches e' (chain input r next) (close_lane now input go (y, q))) (sym c)
        (both_ind (Reaches e') r.status _ _ _ _
          (λ o.
            subst (λ y. Reaches e' (next r.power r.live) (close_lane now input go (ok, y)))
              (Reaches-at e r q (f, g, j) o) (ended o))
          (λ n. (refl, refl, g, λ o. cc)))
    where
      ended :
          r.status ≡ ok
          → Reaches e' (next r.power r.live) (close_lane now input go (ok, at e r.power r.live))
      ended o = rw (lt→ltb e r.live.m.code_size l, b) (k o)

module _ {W : Type 0} (now : W → ℕ × W) (fl : Floats) (tick : ℕ) (code : Bytes) (size : ℕ) where
  -- The runtime holds this code.
  abbrev pub Holds : Live W → Type 0
  Holds s = (s.m.code ≡ code) × (s.m.code_size ≡ size)

  Holds-Frame : (s t : Live W) → Frame s.m t.m → Holds s → Holds t
  Holds-Frame s t f (c, z) = (Frame-code s.m t.m f ∙ c, Frame-code_size s.m t.m f ∙ z)

  -- A rung is run up to opcode 0, which no instruction has, and a lane up to its end.
  abbrev pub IsStop : ℕ → Type 0
  IsStop stop = (stop ≡ 0) ⊎ (stop ≡ 242)

  -- The run is over at `p`: the opcode it looks for is there, or a rung has come to the end.
  abbrev pub IsOver : ℕ → ℕ → Type 0
  IsOver stop p = ((p < size) × (byte code p ≡ stop)) ⊎ ((size ≤ p) × (stop ≡ 0))

  over-Reaches :
      (fuel stop p : ℕ) (power : Bool) (s : Live W)
      → Holds s
      → IsOver stop p
      → Reaches p (succeed power s) (run_until now fl (suc fuel) tick stop (at p power s))
  unfolding run_until
  over-Reaches fuel stop p power s (c, z) d = ground arith

  run_until-instruction :
      (fuel stop o : ℕ) (power : Bool) (s : Live W)
      → Holds s
      → IsStop stop
      → o < size
      → byte code o ≢ 0
      → byte code o < 240
      → run_until now fl (suc fuel) tick stop (at o power s)
        ≡ continue (run_until now fl fuel tick stop) (run_one now fl tick (at o power s))
  unfolding run_until
  run_until-instruction fuel stop o power s (c, z) h l n b = ground arith

  run_until-branch :
      (fuel stop o : ℕ) (power : Bool) (s : Live W)
      → Holds s
      → IsStop stop
      → o < size
      → byte code o ≡ 240
      → run_until now fl (suc fuel) tick stop (at o power s) ≡ (
          run_lanes now fl fuel tick power false 0 (at (o + instr_size code o) power s)
          >>= continue (run_until now fl fuel tick stop))
  unfolding run_until
  run_until-branch fuel stop o power s (c, z) h l b = ground arith

  run_lanes-lane :
      (fuel o n : ℕ) (input merged power : Bool) (s : Live W)
      → Holds s
      → o < size
      → byte code o ≡ 241
      → run_lanes now fl (suc fuel) tick input merged n (at o power s) ≡ (
          run_until now fl fuel tick 242 (at (o + 12) input s)
          >>= close_lane now input
              (λ q. run_lanes now fl fuel tick input (merged || q.power) (n + 1) (forward 12 q)))
  unfolding run_until
  run_lanes-lane fuel o n input merged power s (c, z) l b = ground arith

  run_lanes-close :
      (fuel o n : ℕ) (input merged power : Bool) (s : Live W)
      → Holds s
      → o < size
      → byte code o ≡ 243
      → run_lanes now fl (suc fuel) tick input merged (n + 1) (at o power s)
        ≡ some (ok, at (o + 12) merged s)
  unfolding run_until close_branch
  run_lanes-close fuel o n input merged power s (c, z) l b = ground arith

  closed :
      (fuel o n : ℕ) (input merged power : Bool) (s : Live W)
      → Holds s
      → o < size
      → byte code o ≡ 243
      → 0 < fuel
      → Reaches
          (o + 12)
          (succeed merged s)
          (run_lanes now fl fuel tick input merged (n + 1) (at o power s))
  closed zero o n input merged power s v l b h = absurd (omega arith)
  closed (suc fuel) o n input merged power s v l b h =
      rw (run_lanes-close fuel o n input merged power s v l b) (refl, refl, refl, λ _. refl)

  -- What follows an instruction, in the description and in the run.
  abbrev pub Steps :
      ℕ → ℕ → Bool → Live W → (Bool → Live W → Step W) → (Point W → Ran W) → Bytes → Type 0
  Steps e o power s next go x =
      let r = execute now fl (decode x o) power tick s in
      (r.status ≡ ok
        → Reaches e (next r.power r.live) (go (at (o + instr_size x o) r.power r.live)))
      → Reaches e (chain r.power r next) (continue go (run_one now fl tick (at o power s)))

  one-Steps :
      (e o : ℕ) (power : Bool) (s : Live W) (next : Bool → Live W → Step W) (go : Point W → Ran W)
      → Steps e o power s next go s.m.code
  unfolding run_one
  one-Steps e o power s next go k =
      let r = execute now fl (decode s.m.code o) power tick s in
      both_ind (λ a b. Reaches e a (continue go b)) r.status _ _ _ _ k
        (λ n. (refl, refl, refl, λ o. cc))

  mutual
    unfolding meaning

    until-Reaches :
        (fuel stop : ℕ) {o p : ℕ} (seq : Sequence code size o p) (power : Bool) (s : Live W)
        → Holds s
        → IsStop stop
        → IsOver stop p
        → p - o < fuel
        → Reaches p
            (meaning now fl tick code size seq power s)
            (run_until now fl fuel tick stop (at o power s))
    until-Reaches zero stop seq power s v h d l = absurd (omega arith)
    until-Reaches (suc fuel) stop {p = p} end power s v h d l = over-Reaches fuel stop p power s v d
    until-Reaches (suc fuel) stop {o} {p} (instruction a n b rest) power s v h d l =
        let r = execute now fl (decode code o) power tick s in
        let held = Holds-Frame s r.live (execute-Frame now fl (decode code o) power tick s) v in
        let k = Sequence-le rest in
        let ih = until-Reaches fuel stop rest r.power r.live held h d (omega arith) in
        rw (run_until-instruction fuel stop o power s v h a n b) (
          subst
            (Steps p o power s (meaning now fl tick code size rest)
              (run_until now fl fuel tick stop))
            v.0
            (one-Steps p o power s (meaning now fl tick code size rest)
              (run_until now fl fuel tick stop))
            (λ _. ih))
    until-Reaches (suc fuel) stop {o} {p} (branch {a = e} a b lanes i j rest) power s v h d l =
        let r = lanes_meaning now fl tick code size lanes power false s in
        let held =
          Holds-Frame s r.live (lanes_meaning-Frame now fl tick code size lanes power false s) v in
        let m = Lanes-le lanes in
        let k = Sequence-le rest in
        let ih = until-Reaches fuel stop rest r.power r.live held h d (omega arith) in
        rw (run_until-branch fuel stop o power s v h a b) (
          continue-Reaches (e + 12) p r (meaning now fl tick code size rest)
            (run_until now fl fuel tick stop) _
            (lanes-Reaches fuel 0 lanes power false power s v i j (omega arith)) (λ _. ih))

    lanes-Reaches :
        (fuel n : ℕ) {o a : ℕ} (lanes : Lanes code size o a) (input merged power : Bool)
        (s : Live W)
        → Holds s
        → a < size
        → byte code a ≡ 243
        → a - o < fuel
        → Reaches
            (a + 12)
            (lanes_meaning now fl tick code size lanes input merged s)
            (run_lanes now fl fuel tick input merged n (at o power s))
    lanes-Reaches zero n lanes input merged power s v i j l = absurd (omega arith)
    lanes-Reaches (suc fuel) n {o} {a} (last {e = p} x b lane y e) input merged power s v i j l =
        let r = meaning now fl tick code size lane input s in
        let held = Holds-Frame s r.live (meaning-Frame now fl tick code size lane input s) v in
        let k = Sequence-le lane in
        let inner = until-Reaches fuel 242 lane input s v (inr refl) (inl (y, e)) (omega arith) in
        rw (run_lanes-lane fuel o n input merged power s v x b) (
          close_lane-Reaches now p (p + 12 + 12) input r (λ q. succeed (merged || q)) _ _ inner
            (rw (held.1) y) (rw (held.0) e)
            (λ _.
              closed fuel (p + 12) n input (merged || r.power) r.power r.live held i j
                (omega arith)))
    lanes-Reaches (suc fuel) n {o} {a} (more {e = p} x b lane y e rest) input merged power s v i j
          l =
        let r = meaning now fl tick code size lane input s in
        let held = Holds-Frame s r.live (meaning-Frame now fl tick code size lane input s) v in
        let k = Sequence-le lane in
        let m = Lanes-le rest in
        let inner = until-Reaches fuel 242 lane input s v (inr refl) (inl (y, e)) (omega arith) in
        let ih =
          lanes-Reaches fuel (n + 1) rest input (merged || r.power) r.power r.live held i j
            (omega arith) in
        rw (run_lanes-lane fuel o n input merged power s v x b) (
          close_lane-Reaches now p (a + 12) input r
            (λ q. lanes_meaning now fl tick code size rest input (merged || q)) _ _ inner
            (rw (held.1) y) (rw (held.0) e) (λ _. ih))

module _ {W : Type 0} (now : W → ℕ × W) (fl : Floats) (tick : ℕ) where
  -- Code that is well nested from offset `o` to its end, each branch with a lane or more: with more
  -- fuel than it has bytes, `run_until` from `o` on returns OK at the end of the code, or FAULTED,
  -- with the status, the power and the runtime of the description by nesting, in which each lane
  -- begins with the power before its branch, and a branch has the power of any of its lanes.
  pub run_until-meaning :
      (fuel o : ℕ) (power : Bool) (s : Live W)
      (seq : Sequence s.m.code s.m.code_size o s.m.code_size)
      → s.m.code_size - o < fuel
      → Reaches s.m.code_size
          (meaning now fl tick s.m.code s.m.code_size seq power s)
          (run_until now fl fuel tick 0 (at o power s))
  run_until-meaning fuel o power s seq l =
      until-Reaches now fl tick s.m.code s.m.code_size fuel 0 seq power s (refl, refl) (inl refl)
        (inr (omega arith, refl)) l
