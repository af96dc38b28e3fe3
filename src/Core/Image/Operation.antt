-- ===== src/Core/Image/Operation.antt =====
-- From a load to a scan: `rsm_runtime_load_image`, `rsm_runtime_set_mode` and `rsm_runtime_scan`.
use rsmicro.Prelude.{
  ℕ, zero, suc, ◌+◌, ◌<◌, ◌≡◌, refl, sym, subst, ◌∙◌, Bool, true, false, ◌&&◌, some, some-injective,
  arith, if_ind, if◌then◌else◌, ltb, map,
}
use rsmicro.Core.Types.{Status, status_ind, ok, Mode, Impl, Runtime, Floats, Hal}
use rsmicro.Core.Words.{Bytes}
use rsmicro.Core.Boundary.{IsWellCoded}
use rsmicro.Core.Tags.{put}
use rsmicro.Core.Machine.{destination, instr_size}
use rsmicro.Core.Lifecycle.{
  is_active, is_program, set_mode, output_write, write_outputs, lifecycle_outputs, initial_state,
  initial_tag,
}
use rsmicro.Core.Modes.{passed, set_mode-ok}
use rsmicro.Core.Scan.{scan}
use rsmicro.Core.Scan.Ends.{ScanEnds, scan-ScanEnds}
use rsmicro.Core.Image.Layout.{Sizes}
use rsmicro.Core.Image.Load.{load_image}
use rsmicro.Core.Image.Ready.{Ready, Loads, load_image-Loads}

-- the same code and rungs
abbrev pub SameCode : Impl → Impl → Type 0
SameCode m n = (n.code ≡ m.code) × (n.code_size ≡ m.code_size) × (n.rungs ≡ m.rungs)

output_write-SameCode : (pre : Bool) (o : ℕ) (m : Impl) → SameCode m (output_write pre o m).1
unfolding output_write destination put
output_write-SameCode pre o m = (ground arith, ground arith, ground arith)

SameCode-trans : (m n k : Impl) → SameCode m n → SameCode n k → SameCode m k
SameCode-trans m n k (a, b, c) (d, e, f) = (d ∙ a, e ∙ b, f ∙ c)

write_outputs-SameCode :
    (fuel : ℕ) (pre : Bool) (o : ℕ) (m : Impl) → SameCode m (write_outputs fuel pre o m).1
unfolding write_outputs
write_outputs-SameCode zero pre o m = (refl, refl, refl)
write_outputs-SameCode (suc fuel) pre o m =
    let r = output_write pre o m in
    let here = output_write-SameCode pre o m in
    let rest = write_outputs-SameCode fuel pre (o + instr_size m.code o) r.1 in
    if_ind (λ (x : Status × Impl). SameCode m x.1) (ltb o m.code_size) _ _
      (λ _.
        status_ind (λ (x : Status × Impl). SameCode m x.1) r.0 _ _
          (λ _.
            SameCode-trans m r.1 (write_outputs fuel pre (o + instr_size m.code o) r.1).1 here rest)
          (λ _. here))
      (λ _. (refl, refl, refl))

pub lifecycle_outputs-SameCode : (pre : Bool) (m : Impl) → SameCode m (lifecycle_outputs pre m).1
unfolding lifecycle_outputs
lifecycle_outputs-SameCode pre m =
    write_outputs-SameCode m.code_size pre 0
      (record m { state = map (initial_state pre) m.state; tag = map initial_tag m.tag })

pub passed-SameCode : (from to : Mode) (m : Impl) → SameCode m (passed from to m)
unfolding passed
passed-SameCode from to m =
    if_ind (SameCode m) (is_active to && is_program from) (lifecycle_outputs true m).1
      (if is_program to && is_active from then (lifecycle_outputs false m).1 else m)
      (λ _. lifecycle_outputs-SameCode true m)
      λ _.
        if_ind (SameCode m) (is_program to && is_active from) (lifecycle_outputs false m).1 m
          (λ _. lifecycle_outputs-SameCode false m) (λ _. (refl, refl, refl))

module _ {W : Type 0} where
  pub Loads-ok :
      (z : Sizes) (r : Runtime W) (x : Bytes) (n : ℕ) (l : Status × Runtime W)
      → Loads z r x n l
      → l.0 ≡ ok
      → (m : Impl) × (l.1.impl ≡ some m) × Ready m
  Loads-ok z r x n (ok, r') (m, e, k, _, _, _) h = (m, e, k)
  Loads-ok z r x n (_, r') l h = cc

  -- Take a load that returned OK with program `m`, and then a change of the mode that returned OK,
  -- with its prescan or postscan. The program `m'` in the runtime then has the code and the rungs of
  -- `m`, and a scan with more fuel than the number of rungs plus one ends, whatever the HAL does,
  -- with the program still loaded and, after OK, the mode and the size of the code as before.
  pub load_image-scan :
      (z : Sizes) (hal : Hal W) (fl : Floats) (fuel : ℕ) (r : Runtime W) (x : Bytes) (n code : ℕ)
      (m : Impl)
      → (load_image z r x n).0 ≡ ok
      → (load_image z r x n).1.impl ≡ some m
      → (set_mode (load_image z r x n).1 code).0 ≡ ok
      → suc m.rungs < fuel
      → (m' : Impl) × ((set_mode (load_image z r x n).1 code).1.impl ≡ some m')
        × SameCode m m'
        × ScanEnds
            (set_mode (load_image z r x n).1 code).1
            m'
            (scan hal fl fuel (set_mode (load_image z r x n).1 code).1)
  load_image-scan z hal fl fuel r x n code m h e k l =
      let r₁ = (load_image z r x n).1 in
      let (m₀, e₀, ready) = Loads-ok z r x n (load_image z r x n) (load_image-Loads z r x n) h in
      let coded = subst Ready (some-injective _ _ (sym e₀ ∙ e)) ready in
      let (mode, _, changed) = set_mode-ok r₁ code k in
      let m' = passed r₁.mode mode m in
      let loaded = changed.1 m e in
      let same = passed-SameCode r₁.mode mode m in
      (
        m',
        loaded,
        same,
        scan-ScanEnds hal fl fuel (set_mode r₁ code).1 m' loaded (well_coded m m' same coded.coded)
            (omega (arith, same.2)),
      )
    where
      well_coded :
          (m m' : Impl)
          → SameCode m m'
          → IsWellCoded m.code m.code_size
          → IsWellCoded m'.code m'.code_size
      well_coded m m' (a, b, _) w =
          subst (λ c. IsWellCoded c m'.code_size) (sym a) (subst (IsWellCoded m.code) (sym b) w)
