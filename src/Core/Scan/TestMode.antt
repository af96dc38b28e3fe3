-- ===== src/Core/Scan/TestMode.antt =====
-- A scan in TEST: as with a HAL that has no output callback.
use rsmicro.Prelude.{
  ℕ, zero, suc, ◌+◌, ◌*◌, ◌==◌, ◌<◌, ◌≡◌, refl, ap, ◌∙◌, fun_ext, subst, ltb, not, if◌then◌else◌,
  Option, none, some, length, arith, sym,
}
use rsmicro.Core.Words.{u32, u32_max}
use rsmicro.Core.Types.{ok, faulted, Mode, FaultCategory, Floats, Hal, Live, Impl, Runtime}
use rsmicro.Core.Boundary.{Boundary, IsWellCoded}
use rsmicro.Core.Scan.{
  Passed, ◌>>=◌, input_step, read_one, current_input, scan_fault, scan_inputs, scan_outputs,
  scan_end, scan_live, scan, scanned, run_rung, rung_end, after_rung, scan_rungs, scan_passes,
}
use rsmicro.Core.Scan.Rungs.{Kept}
use rsmicro.Core.Scan.Loop.{PassEnds, left_over, Loops-at}
use rsmicro.Core.Scan.Inputs.{scan_inputs-Kept}
use rsmicro.Core.Scan.Ends.{WellCoded-Kept}

-- the HAL without its output callback
abbrev pub silent : {W : Type 0} → Hal W → Hal W
silent hal = record hal { write_output = none }

module _ {W : Type 0} where
  bind-congr :
      (r : Option (Passed W)) (k k' : Live W → Option (Passed W))
      → ((t : Live W) → r ≡ some (ok, t) → k t ≡ k' t)
      → (r >>= k) ≡ (r >>= k')
  bind-congr none k k' h = refl
  bind-congr (some (ok, t)) k k' h = h t refl
  bind-congr (some (_, t)) k k' h = refl

module _ {W : Type 0} (hal : Hal W) where
  scan_inputs-silent :
      (left i : ℕ) (s : Live W) → scan_inputs (silent hal) left i s ≡ scan_inputs hal left i s
  unfolding scan_inputs input_step read_one scan_fault current_input
  scan_inputs-silent zero i s = refl
  scan_inputs-silent (suc left) i s =
      let r = input_step hal i s in
      ap (λ (rest : Passed W). elim r.0 [ ok ↦ rest | _ ↦ (faulted, r.1) ])
        (scan_inputs-silent left (i + 1) r.1)

  scan_outputs-silent :
      (s : Live W) → s.mode ≡ Mode.test → scan_outputs (silent hal) s ≡ scan_outputs hal s
  unfolding scan_outputs
  scan_outputs-silent s e = rw e refl

  scan_end-silent : (start : ℕ) (s : Live W) → scan_end (silent hal) start s ≡ scan_end hal start s
  unfolding scan_end scan_fault
  scan_end-silent start s = refl

module _ {W : Type 0} (hal : Hal W) (fl : Floats) where
  scan_rungs-silent :
      (fuel tick o rung : ℕ) (s : Live W)
      → scan_rungs (silent hal) fl fuel tick o rung s ≡ scan_rungs hal fl fuel tick o rung s
  unfolding scan_rungs run_rung scan_fault
  scan_rungs-silent zero tick o rung s = refl
  scan_rungs-silent (suc fuel) tick o rung s =
      ap
        (λ (again : ℕ → ℕ → Live W → Option (Passed W)).
          let count = u32 s.m.rung_data (rung * 12 + 8) in
          let found = rung_end s.m count o in
          if not (ltb o s.m.code_size)
          then some (ok, s)
          else if ltb rung s.m.rungs
          then (if found.1 == count
              then after_rung (suc rung) again
                  (run_rung hal fl (suc s.m.code_size) tick o found.0 s)
              else some (scan_fault hal s FaultCategory.execution 21 "RUNG_RANGE" u32_max))
          else after_rung rung again (run_rung hal fl (suc s.m.code_size) tick o s.m.code_size s))
        (fun_ext λ p. fun_ext λ n. fun_ext λ t. scan_rungs-silent fuel tick p n t)

  scan_passes-silent :
      (fuel tick : ℕ) (s : Live W)
      → s.mode ≡ Mode.test
      → IsWellCoded s.m.code s.m.code_size
      → suc s.m.rungs < fuel
      → scan_passes (silent hal) fl fuel tick s ≡ scan_passes hal fl fuel tick s
  unfolding scan_passes
  scan_passes-silent fuel tick s m w l =
      ap
        (λ (x : Passed W).
          some x >>= (λ s₁. scan_rungs (silent hal) fl fuel tick 0 0 s₁ >>= outputs'))
        (scan_inputs-silent hal (length s.m.tag) 0 s)
      ∙ bind-congr (some (scan_inputs hal (length s.m.tag) 0 s)) _ _ rungs
    where
      end : Live W → Option (Passed W)
      end s₃ = some (scan_end hal tick s₃)

      end' : Live W → Option (Passed W)
      end' s₃ = some (scan_end (silent hal) tick s₃)

      outputs : Live W → Option (Passed W)
      outputs s₂ = some (scan_outputs hal s₂) >>= end

      outputs' : Live W → Option (Passed W)
      outputs' s₂ = some (scan_outputs (silent hal) s₂) >>= end'

      last : (s₂ : Live W) → s₂.mode ≡ Mode.test → outputs' s₂ ≡ outputs s₂
      last s₂ e =
          ap (λ (x : Passed W). some x >>= end') (scan_outputs-silent hal s₂ e)
          ∙ bind-congr (some (scan_outputs hal s₂)) end' end
              (λ s₃ _. ap some (scan_end-silent hal tick s₃))

      rungs :
          (s₁ : Live W)
          → some (scan_inputs hal (length s.m.tag) 0 s) ≡ some (ok, s₁)
          → (scan_rungs (silent hal) fl fuel tick 0 0 s₁ >>= outputs')
            ≡ (scan_rungs hal fl fuel tick 0 0 s₁ >>= outputs)
      rungs s₁ e =
          let k₁ : Kept ok s s₁ =
            subst (PassEnds s) e (scan_inputs-Kept hal (length s.m.tag) 0 s) in
          let fits : left_over hal fl tick 0 0 s₁ < fuel = ground (arith, l, k₁.rungs) in
          let ends : PassEnds s₁ (scan_rungs hal fl fuel tick 0 0 s₁) =
            Loops-at hal fl tick fuel 0 0 s₁ (WellCoded-Kept s s₁ k₁ w) Boundary.start fits in
          ap (λ (x : Option (Passed W)). x >>= outputs') (scan_rungs-silent fuel tick 0 0 s₁)
          ∙ bind-congr (scan_rungs hal fl fuel tick 0 0 s₁) outputs' outputs (λ s₂ g.
            let k₂ : Kept ok s₁ s₂ = subst (PassEnds s₁) g ends in
            last s₂ (k₂.mode refl ∙ (k₁.mode refl ∙ m)))

  -- A scan of a well coded program in TEST does what it does with a HAL that has no output callback:
  -- it writes no output.
  pub scan-silent :
      (fuel : ℕ) (r : Runtime W) (m : Impl)
      → r.impl ≡ some m
      → r.mode ≡ Mode.test
      → IsWellCoded m.code m.code_size
      → suc m.rungs < fuel
      → scan hal fl fuel r ≡ scan (silent hal) fl fuel r
  unfolding scan scan_live
  scan-silent fuel r m e t w l =
      let (start, context) = hal.now r.context in
      let s : Live W = record {
        m = record m { diag = record (m.diag) { last_scan_start_us = start } };
        mode = Mode.test;
        context = context;
      } in
      let r' = record r { impl = some m; mode = Mode.test } in
      let p = ap (scanned hal fl r') (scan_passes-silent fuel start s refl w l) in rw (e, t) (sym p)
