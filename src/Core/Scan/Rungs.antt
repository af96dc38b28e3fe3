-- ===== src/Core/Scan/Rungs.antt =====
-- The rung loop of the scan: each rung's run, and the end of the loop within its fuel.
use rsmicro.Prelude.{
  ℕ, ◌-◌, ◌≡◌, refl, ◌≤◌, ◌<◌, ltb, Bool-cases, inl, inr, some, none, arith, lt→ltb, ltb→lt,
  if◌then◌else◌, ◌∙◌, subst, ap, map,
}
use rsmicro.Core.Types.{Status, ok, faulted, Floats, Hal, Live}
use rsmicro.Core.Boundary.{Boundary, IsWellCoded, IsWellCoded-le}
use rsmicro.Core.Frame.{Fixed, tag_kind}
use rsmicro.Core.Frame.Onward.{Onward, Ends, Frame-code, Frame-code_size}
use rsmicro.Core.Frame.Runs.{run_until-Ends}
use rsmicro.Core.Ranges.{Ranged}
use rsmicro.Core.Run.{Point, Ran, run_until}
use rsmicro.Core.Scan.{with_size, rung_start, restore, run_rung}
use rsmicro.Core.Scan.Stops.{StopsAt, run_until-StopsAt, reaches_end}

module _ {W : Type 0} where
  -- A pass that ended with status `st` kept the code, the rungs, the forces with their count, and the tags' kinds, and the
  -- timers' range, and the code has not grown; after OK also the size of the code and the mode.
  pub record Kept (st : Status) (s t : Live W) : Type 0 where
    pub code : t.m.code ≡ s.m.code
    pub rungs : t.m.rungs ≡ s.m.rungs
    pub kinds : map tag_kind t.m.tag ≡ map tag_kind s.m.tag
    pub force : t.m.force ≡ s.m.force
    pub shrinks : t.m.code_size ≤ s.m.code_size
    pub active : t.m.diag.active_force_count ≡ s.m.diag.active_force_count
    pub ranged : Ranged s.m → Ranged t.m
    pub size : st ≡ ok → t.m.code_size ≡ s.m.code_size
    pub mode : st ≡ ok → t.mode ≡ s.mode

  pub Kept-trans : {st : Status} {s t u : Live W} → Kept ok s t → Kept st t u → Kept st s u
  Kept-trans h k = record {
    code = k.code ∙ h.code;
    rungs = k.rungs ∙ h.rungs;
    kinds = k.kinds ∙ h.kinds;
    force = k.force ∙ h.force;
    shrinks = omega (arith, h.shrinks, k.shrinks);
    active = k.active ∙ h.active;
    ranged = λ r. k.ranged (h.ranged r);
    size = λ e. k.size e ∙ h.size refl;
    mode = λ e. k.mode e ∙ h.mode refl;
  }

  pub Kept-fails : {st : Status} {s t : Live W} → Kept st s t → Kept faulted s t
  Kept-fails h = record {
    code = h.code;
    rungs = h.rungs;
    kinds = h.kinds;
    force = h.force;
    shrinks = h.shrinks;
    active = h.active;
    ranged = h.ranged;
    size = λ e. cc;
    mode = λ e. cc;
  }

  -- The end of a rung that was run from `o` up to `stop`.
  pub record RungEnd (s : Live W) (stop : ℕ) (st : Status) (q : Point W) : Type 0 where
    pub kept : Kept st s q.live
    pub boundary : Boundary s.m.code q.offset
    pub reached : st ≡ ok → stop ≤ q.offset

  abbrev pub RungEnds : Live W → ℕ → Ran W → Type 0
  RungEnds s stop none = ⊥
  RungEnds s stop (some (st, q)) = RungEnd s stop st q

  -- What a run up to `stop` says of the whole program.
  rung-RungEnd :
      (s : Live W) (o : ℕ) (st : Status) (q : Point W)
      → IsWellCoded s.m.code s.m.code_size
      → Boundary s.m.code o
      → Onward st (rung_start o s) q
      → StopsAt 0 (some (st, q))
      → RungEnd s s.m.code_size st q
  rung-RungEnd s o st q w b k h = record {
    kept = record {
      code = Frame-code s.m q.live.m k.frame;
      rungs = ap (λ (x : Fixed). x.rungs) k.frame;
      kinds = ap (λ (x : Fixed). x.kinds) k.frame;
      force = ap (λ (x : Fixed). x.force) k.frame;
      shrinks = omega (arith, Frame-code_size s.m q.live.m k.frame);
      active = ap (λ (x : Fixed). x.active_force_count) k.frame;
      ranged = k.ranged;
      size = λ _. Frame-code_size s.m q.live.m k.frame;
      mode = k.mode;
    };
    boundary = k.aligned s.m.code refl w b;
    reached = λ e.
        reaches_end s.m.code (rung_start o s) q refl w b
          (subst (λ x. Onward x (rung_start o s) q) e k) (subst (λ x. StopsAt 0 (some (x, q))) e h);
  }

  Ends-RungEnds :
      (s : Live W) (o : ℕ) (r : Ran W)
      → IsWellCoded s.m.code s.m.code_size
      → Boundary s.m.code o
      → Ends (rung_start o s) r
      → StopsAt 0 r
      → RungEnds s s.m.code_size r
  Ends-RungEnds s o none w b e h = e
  Ends-RungEnds s o (some (st, q)) w b e h = rung-RungEnd s o st q w b e h

  -- The end of the code is put back after OK.
  restore-RungEnds :
      (s : Live W) (stop : ℕ) (r : Ran W)
      → stop < s.m.code_size
      → RungEnds (with_size stop s) stop r
      → RungEnds s stop (restore s.m.code_size r)
  restore-RungEnds s stop none l e = e
  restore-RungEnds s stop (some (ok, q)) l e = record {
    kept = record {
      code = e.kept.code;
      rungs = e.kept.rungs;
      kinds = e.kept.kinds;
      force = e.kept.force;
      shrinks = omega arith;
      active = e.kept.active;
      ranged = e.kept.ranged;
      size = λ _. refl;
      mode = e.kept.mode;
    };
    boundary = e.boundary;
    reached = e.reached;
  }
  restore-RungEnds s stop (some (_, q)) l e = record {
    kept = record {
      code = e.kept.code;
      rungs = e.kept.rungs;
      kinds = e.kept.kinds;
      force = e.kept.force;
      shrinks = omega (arith, e.kept.shrinks, l);
      active = e.kept.active;
      ranged = e.kept.ranged;
      size = λ h. cc;
      mode = λ h. cc;
    };
    boundary = e.boundary;
    reached = λ h. cc;
  }

  -- where the run of a rung has to stop
  abbrev pub rung_bound : ℕ → Live W → ℕ
  rung_bound stop s = if ltb stop s.m.code_size then stop else s.m.code_size

  -- How the size of the code is left by a rung that ends at `stop`, before `size`.
  abbrev pub SizeAfter : ℕ → ℕ → Ran W → Type 0
  SizeAfter size stop none = ⊥
  SizeAfter size stop (some (ok, q)) = q.live.m.code_size ≡ size
  SizeAfter size stop (some (_, q)) = q.live.m.code_size ≡ stop

  restore-SizeAfter :
      (size stop : ℕ) (p : Point W) (r : Ran W)
      → p.live.m.code_size ≡ stop
      → Ends p r
      → SizeAfter size stop (restore size r)
  restore-SizeAfter size stop p none h e = e
  restore-SizeAfter size stop p (some (ok, q)) h e = refl
  restore-SizeAfter size stop p (some (_, q)) h e = Frame-code_size p.live.m q.live.m e.frame ∙ h

module _ {W : Type 0} (hal : Hal W) (fl : Floats) (fuel tick : ℕ) where
  pub run_rung-RungEnds :
      (o stop : ℕ) (s : Live W)
      → IsWellCoded s.m.code s.m.code_size
      → Boundary s.m.code o
      → s.m.code_size < fuel
      → RungEnds s (rung_bound stop s) (run_rung hal fl fuel tick o stop s)
  unfolding run_rung
  run_rung-RungEnds o stop s w b h = elim (Bool-cases (ltb stop s.m.code_size)) [
    | inl c ↦ rw c (restore-RungEnds s stop _ (ltb→lt _ _ c) (within (ltb→lt _ _ c)))
    | inr c ↦ rw c (
        Ends-RungEnds s o _ w b
          (run_until-Ends hal.now fl tick fuel 0 (rung_start o s) (omega arith))
          (run_until-StopsAt hal.now fl tick fuel 0 (rung_start o s)))
  ]
    where
      cut : Live W
      cut = with_size stop s

      within :
          stop < s.m.code_size
          → RungEnds cut stop (run_until hal.now fl fuel tick 0 (rung_start o cut))
      within l =
          Ends-RungEnds cut o _ (IsWellCoded-le s.m.code stop s.m.code_size (omega arith) w) b
            (run_until-Ends hal.now fl tick fuel 0 (rung_start o cut) (omega arith))
            (run_until-StopsAt hal.now fl tick fuel 0 (rung_start o cut))

  -- A rung that ends before the code does leaves the size of the code as it was if it returns OK, but
  -- leaves it at the rung's end if it faults.
  pub run_rung-SizeAfter :
      (o stop : ℕ) (s : Live W)
      → stop < s.m.code_size
      → stop - o < fuel
      → SizeAfter s.m.code_size stop (run_rung hal fl fuel tick o stop s)
  unfolding run_rung
  run_rung-SizeAfter o stop s l h = rw (lt→ltb _ _ l) (
      restore-SizeAfter s.m.code_size stop (rung_start o (with_size stop s)) _ refl
        (run_until-Ends hal.now fl tick fuel 0 (rung_start o (with_size stop s)) h))
