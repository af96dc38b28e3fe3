-- ===== src/Core/Scan/Loop.antt =====
-- The rung loop of the scan ends within its fuel.
use Prim.Native.String.{String}
use rsmicro.Prelude.{
  ℕ, zero, suc, ◌+◌, ◌-◌, ◌*◌, ◌≡◌, refl, ◌≤◌, ◌<◌, ◌==◌, ltb, not, true, Bool, some, none, Option,
  if_ind, arith, ltb→lt, if◌then◌else◌, sym, subst,
}
use rsmicro.Core.Types.{ok, faulted, Floats, Hal, Live, FaultCategory}
use rsmicro.Core.Words.{u32, u32_max}
use rsmicro.Core.Machine.{fail}
use rsmicro.Core.Boundary.{Boundary, IsWellCoded}
use rsmicro.Core.Run.{Ran}
use rsmicro.Core.Scan.{Passed, note_power, after_rung, rung_end, scan_fault, run_rung, scan_rungs}
use rsmicro.Core.Scan.Rungs.{Kept, Kept-trans, Kept-fails, RungEnds, rung_bound, run_rung-RungEnds}

module _ {W : Type 0} where
  abbrev pub PassEnds : Live W → Option (Passed W) → Type 0
  PassEnds s none = ⊥
  PassEnds s (some (st, t)) = Kept st s t

  pub PassEnds-trans :
      (s t : Live W) (r : Option (Passed W)) → Kept ok s t → PassEnds t r → PassEnds s r
  PassEnds-trans s t none h e = e
  PassEnds-trans s t (some (st, u)) h e = Kept-trans h e

  pub Kept-refl : (s : Live W) → Kept ok s s
  Kept-refl s = record {
    code = refl;
    rungs = refl;
    kinds = refl;
    force = refl;
    shrinks = omega arith;
    active = refl;
    ranged = λ r. r;
    size = λ _. refl;
    mode = λ _. refl;
  }

  note_power-Kept : (rung : ℕ) (power : Bool) (s : Live W) → Kept ok s (note_power rung power s)
  note_power-Kept rung power s = record {
    code = ground arith;
    rungs = ground arith;
    kinds = ground arith;
    force = ground arith;
    shrinks = ground arith;
    active = ground arith;
    ranged = λ r. ground arith;
    size = λ _. ground arith;
    mode = λ _. ground arith;
  }

  after_rung-PassEnds :
      (s : Live W) (stop rung : ℕ) (again : ℕ → ℕ → Live W → Option (Passed W)) (r : Ran W)
      → RungEnds s stop r
      → ((o : ℕ) (t : Live W)
          → Kept ok s t
          → Boundary s.m.code o
          → stop ≤ o
          → PassEnds t (again o rung t))
      → PassEnds s (after_rung rung again r)
  after_rung-PassEnds s stop rung again none e k = e
  after_rung-PassEnds s stop rung again (some (ok, q)) e k =
      let n = note_power-Kept rung q.power q.live in
      PassEnds-trans s (note_power rung q.power q.live) _ (Kept-trans e.kept n) (
        k q.offset (note_power rung q.power q.live) (Kept-trans e.kept n) e.boundary
          (e.reached refl))
  after_rung-PassEnds s stop rung again (some (_, q)) e k = Kept-fails e.kept

module _ {W : Type 0} (hal : Hal W) where
  pub scan_fault-Kept :
      (s : Live W) (c : FaultCategory) (code : ℕ) (message : String) (tag : ℕ)
      → Kept faulted s (scan_fault hal s c code message tag).1
  unfolding scan_fault fail
  scan_fault-Kept s c code message tag = record {
    code = refl;
    rungs = refl;
    kinds = refl;
    force = refl;
    shrinks = omega arith;
    active = refl;
    ranged = λ r. r;
    size = λ e. cc;
    mode = λ e. cc;
  }

module _ {W : Type 0} (hal : Hal W) (fl : Floats) (tick : ℕ) where
  -- The fuel that the rest of the loop needs.
  abbrev pub left_over : ℕ → ℕ → Live W → ℕ
  left_over o rung s = if ltb o s.m.code_size then suc (s.m.rungs - rung) else 0

  -- With this fuel the rung loop ends.
  abbrev pub Loops : ℕ → Type 0
  Loops fuel =
      (o rung : ℕ) (s : Live W)
      → IsWellCoded s.m.code s.m.code_size
      → Boundary s.m.code o
      → left_over o rung s < fuel
      → PassEnds s (scan_rungs hal fl fuel tick o rung s)

  -- what the rest of the loop does after a rung
  again-PassEnds :
      (fuel : ℕ) (s : Live W) (o rung : ℕ) (t : Live W)
      → Loops fuel
      → IsWellCoded s.m.code s.m.code_size
      → Kept ok s t
      → Boundary s.m.code o
      → left_over o rung t < fuel
      → PassEnds t (scan_rungs hal fl fuel tick o rung t)
  again-PassEnds fuel s o rung t ih w k b h =
      ih o rung t
        (subst (λ x. IsWellCoded x t.m.code_size) (sym k.code)
          (subst (IsWellCoded s.m.code) (sym (k.size refl)) w))
        (subst (λ x. Boundary x o) (sym k.code) b) h

  Loops-suc : (fuel : ℕ) → Loops fuel → Loops (suc fuel)
  unfolding scan_rungs scan_fault
  Loops-suc fuel ih o rung s w b h =
      if_ind (PassEnds s) (not (ltb o s.m.code_size)) _ _ (λ _. Kept-refl s)
        λ inside.
          if_ind (PassEnds s) (ltb rung s.m.rungs) _ _ (λ c. known (ground arith) (ltb→lt _ _ c))
            (λ c. beyond (ground arith))
    where
      again : ℕ → ℕ → Live W → Option (Passed W)
      again = scan_rungs hal fl fuel tick

      run : ℕ → Ran W
      run stop = run_rung hal fl (suc s.m.code_size) tick o stop s

      runs : (stop : ℕ) → RungEnds s (rung_bound stop s) (run stop)
      runs stop = run_rung-RungEnds hal fl (suc s.m.code_size) tick o stop s w b (omega arith)

      count : ℕ
      count = u32 s.m.rung_data (rung * 12 + 8)

      found : ℕ × ℕ
      found = rung_end s.m count o

      known :
          ltb o s.m.code_size ≡ true
          → rung < s.m.rungs
          → PassEnds s (
              if found.1 == count
              then after_rung (suc rung) again (run found.0)
              else some (scan_fault hal s FaultCategory.execution 21 "RUNG_RANGE" u32_max))
      known c l =
          if_ind (PassEnds s) (found.1 == count) (after_rung (suc rung) again (run found.0))
            (some (scan_fault hal s FaultCategory.execution 21 "RUNG_RANGE" u32_max))
            (λ _.
              after_rung-PassEnds s (rung_bound found.0 s) (suc rung) again (run found.0)
                (runs found.0)
                (λ o' t k b' _. again-PassEnds fuel s o' (suc rung) t ih w k b' (next o' t k)))
            (λ _. scan_fault-Kept hal s FaultCategory.execution 21 "RUNG_RANGE" u32_max)
        where
          next : (o' : ℕ) (t : Live W) → Kept ok s t → left_over o' (suc rung) t < fuel
          next o' t k = ground (arith, k.rungs)

      beyond : ltb o s.m.code_size ≡ true → PassEnds s (after_rung rung again (run s.m.code_size))
      beyond c =
          after_rung-PassEnds s (rung_bound s.m.code_size s) rung again (run s.m.code_size)
            (runs s.m.code_size)
            (λ o' t k b' r. again-PassEnds fuel s o' rung t ih w k b' (next o' t k r))
        where
          next :
              (o' : ℕ) (t : Live W)
              → Kept ok s t
              → rung_bound s.m.code_size s ≤ o'
              → left_over o' rung t < fuel
          next o' t k r = ground (arith, k.size refl)

  pub Loops-at : (fuel : ℕ) → Loops fuel
  Loops-at zero o rung s w b h = absurd (omega arith)
  Loops-at (suc fuel) o rung s w b h = Loops-suc fuel (Loops-at fuel) o rung s w b h
