-- ===== src/Core/Scan/Ends.antt =====
-- The whole scan ends.
use rsmicro.Prelude.{
  ℕ, suc, ◌≡◌, refl, ◌<◌, some, none, Option, if_ind, arith, sym, subst, length, if◌then◌else◌,
}
use rsmicro.Core.Types.{Status, ok, faulted, invalid_state, Floats, Hal, Live, Impl, Runtime}
use rsmicro.Core.Boundary.{Boundary, IsWellCoded}
use rsmicro.Core.Lifecycle.{is_active, is_faulted}
use rsmicro.Core.Scan.{
  Passed, ◌>>=◌, scan_inputs, scan_outputs, scan_end, scan_rungs, scan_passes, scan_live, scan,
  scanned,
}
use rsmicro.Core.Scan.Rungs.{Kept}
use rsmicro.Core.Scan.Loop.{PassEnds, PassEnds-trans, Kept-refl, left_over, Loops-at}
use rsmicro.Core.Scan.Inputs.{StepKept, diagnosed-Kept, scan_inputs-Kept}
use rsmicro.Core.Scan.Outputs.{scan_outputs-Kept, scan_end-Kept}

module _ {W : Type 0} where
  pub WellCoded-Kept :
      (s t : Live W)
      → Kept ok s t
      → IsWellCoded s.m.code s.m.code_size
      → IsWellCoded t.m.code t.m.code_size
  WellCoded-Kept s t k w =
      subst (λ x. IsWellCoded x t.m.code_size) (sym k.code)
        (subst (IsWellCoded s.m.code) (sym (k.size refl)) w)

  bind-PassEnds :
      (s : Live W) (r : Option (Passed W)) (go : Live W → Option (Passed W))
      → PassEnds s r
      → ((t : Live W) → Kept ok s t → PassEnds t (go t))
      → PassEnds s (r >>= go)
  bind-PassEnds s none go e k = e
  bind-PassEnds s (some (ok, t)) go e k = PassEnds-trans s t (go t) e (k t e)
  bind-PassEnds s (some (_, t)) go e k = e

  some-PassEnds : (s : Live W) (r : Passed W) → StepKept s r → PassEnds s (some r)
  some-PassEnds s (st, t) h = h

  -- The runtime after a scan: the program is still loaded, with the same code, rungs, forces and
  -- kinds of tags; the arena is the same; after OK the mode and the size of the code are as before.
  pub record ScanEnd (r : Runtime W) (m : Impl) (st : Status) (r' : Runtime W) : Type 0 where
    pub m' : Impl
    pub loaded : r'.impl ≡ some m'
    pub arena : r'.arena ≡ r.arena
    pub kept :
        Kept st
          (record { m = m; mode = r.mode; context = r.context })
          (record { m = m'; mode = r'.mode; context = r'.context })

  abbrev pub ScanEnds : Runtime W → Impl → Option (Status × Runtime W) → Type 0
  ScanEnds r m none = ⊥
  ScanEnds r m (some (st, r')) = ScanEnd r m st r'

  idle-ScanEnd : (r : Runtime W) (m : Impl) (st : Status) → r.impl ≡ some m → ScanEnd r m st r
  idle-ScanEnd r m st e = record {
    m' = m;
    loaded = e;
    arena = refl;
    kept = record {
      code = refl;
      rungs = refl;
      kinds = refl;
      force = refl;
      shrinks = omega arith;
      active = refl;
      ranged = λ x. x;
      size = λ _. refl;
      mode = λ _. refl;
    };
  }

module _ {W : Type 0} (hal : Hal W) (fl : Floats) (fuel : ℕ) where
  scanned-ScanEnds :
      (r : Runtime W) (m : Impl) (x : Option (Passed W))
      → PassEnds (record { m = m; mode = r.mode; context = r.context }) x
      → ScanEnds r m (scanned hal fl r x)
  scanned-ScanEnds r m none e = e
  scanned-ScanEnds r m (some (st, s)) e = record { m' = s.m; loaded = refl; arena = refl; kept = e }

  scan_passes-PassEnds :
      (tick : ℕ) (s : Live W)
      → IsWellCoded s.m.code s.m.code_size
      → suc s.m.rungs < fuel
      → PassEnds s (scan_passes hal fl fuel tick s)
  unfolding scan_passes
  scan_passes-PassEnds tick s w h =
      bind-PassEnds s (some (scan_inputs hal (length s.m.tag) 0 s)) rungs
        (some-PassEnds s _ (scan_inputs-Kept hal (length s.m.tag) 0 s))
        (λ s₁ k₁.
          bind-PassEnds s₁ (scan_rungs hal fl fuel tick 0 0 s₁) outputs
            (Loops-at hal fl tick fuel 0 0 s₁ (WellCoded-Kept s s₁ k₁ w) Boundary.start
              (enough s₁ k₁))
            (λ s₂ _.
              bind-PassEnds s₂ (some (scan_outputs hal s₂)) end
                (some-PassEnds s₂ _ (scan_outputs-Kept hal s₂))
                (λ s₃ _. some-PassEnds s₃ (scan_end hal tick s₃) (scan_end-Kept hal tick s₃))))
    where
      end : Live W → Option (Passed W)
      end s₃ = some (scan_end hal tick s₃)

      outputs : Live W → Option (Passed W)
      outputs s₂ = some (scan_outputs hal s₂) >>= end

      rungs : Live W → Option (Passed W)
      rungs s₁ = scan_rungs hal fl fuel tick 0 0 s₁ >>= outputs

      enough : (t : Live W) → Kept ok s t → left_over hal fl tick 0 0 t < fuel
      enough t k = ground (arith, k.rungs)

  scan_live-PassEnds :
      (s : Live W)
      → IsWellCoded s.m.code s.m.code_size
      → suc s.m.rungs < fuel
      → PassEnds s (scan_live hal fl fuel s)
  unfolding scan_live
  scan_live-PassEnds s w h = started (hal.now s.context).0 (hal.now s.context).1
    where
      started :
          (tick : ℕ) (context : W)
          → PassEnds s (
              scan_passes hal fl fuel tick (record s {
                m = record (s.m) { diag = record (s.m.diag) { last_scan_start_us = tick } };
                context = context;
              }))
      started tick context =
          PassEnds-trans s
            (record s {
              m = record (s.m) { diag = record (s.m.diag) { last_scan_start_us = tick } };
              context = context;
            })
            _
            (diagnosed-Kept s _ (record (s.m.diag) { last_scan_start_us = tick }) context refl
              (Kept-refl _))
            (scan_passes-PassEnds tick _ w h)

  -- Take a loaded program in which no instruction has opcode 0 and branch instructions have no
  -- operands. A scan of it ends whenever its fuel is more than the number of rungs plus one, whatever
  -- the HAL does. The program is still loaded then, with the same code, rungs, forces and kinds of
  -- tags, and no more code than before, ACC of every timer is in range if it was, and the arena is the
  -- same. If the scan returns OK, the mode
  -- and the size of the code are as before too.
  pub scan-ScanEnds :
      (r : Runtime W) (m : Impl)
      → r.impl ≡ some m
      → IsWellCoded m.code m.code_size
      → suc m.rungs < fuel
      → ScanEnds r m (scan hal fl fuel r)
  unfolding scan
  scan-ScanEnds r m e w h =
      subst (λ x. ScanEnds r m (opened x)) (sym e)
        (if_ind (ScanEnds r m) (is_active r.mode) _ _
          (λ _.
            scanned-ScanEnds r m (scan_live hal fl fuel (live m)) (scan_live-PassEnds (live m) w h))
          (λ _.
            if_ind (ScanEnds r m) (is_faulted r.mode) (some (faulted, r)) (some (invalid_state, r))
              (λ _. idle-ScanEnd r m faulted e) (λ _. idle-ScanEnd r m invalid_state e)))
    where
      live : Impl → Live W
      live n = record { m = n; mode = r.mode; context = r.context }

      opened : Option Impl → Option (Status × Runtime W)
      opened none = some (invalid_state, r)
      opened (some n) =
          if is_active r.mode
          then scanned hal fl r (scan_live hal fl fuel (live n))
          else if is_faulted r.mode
          then some (faulted, r)
          else some (invalid_state, r)
