-- ===== src/Ports/Demo/Ends.antt =====
-- How the demo of runtime/ports/native_test/src/rsmcore_demo.c ends.
use rsmicro.Prelude.{
  ℕ, suc, ◌+◌, ◌<◌, ◌≤◌, ◌≡◌, ◌≢◌, refl, sym, ap, subst, ◌∙◌, some-injective, length, Option, none,
  some, arith, Option-cases, inl, inr,
}
use rsmicro.Core.Words.{Bytes}
use rsmicro.Core.Types.{Status, ok, ret, Impl, Mode, Runtime, Floats}
use rsmicro.Core.Tags.Access.{runtime_get_diagnostics, runtime_last_fault}
use rsmicro.Core.Lifecycle
use rsmicro.Core.Lifecycle.{set_mode, deinit, change_mode, prescan, postscan}
use rsmicro.Core.Scan.{scan}
use rsmicro.Core.Modes.{set_mode-ok}
use rsmicro.Core.Scan.Ends.{ScanEnd, ScanEnds}
use rsmicro.Core.Image.Layout.{Sizes}
use rsmicro.Core.Image.Sections.{size_max}
use rsmicro.Core.Image.Load.{load_image, required_memory}
use rsmicro.Core.Image.Ready.{load_image-Loads}
use rsmicro.Core.Image.Room.{load_image-enough}
use rsmicro.Core.Image.Operation.{Loads-ok, load_image-scan}
use rsmicro.Ports.TestHal.{TestHal, test_hal, init}
use rsmicro.Ports.Demo.{
  Outcome, fault, done, failed, report, scanned, started, loaded, run_image, main,
}

set_mode-loaded :
    {W : Type 0} (r : Runtime W) (code : ℕ) (m : Impl)
    → r.impl ≡ some m
    → (m' : Impl) × ((set_mode r code).1.impl ≡ some m')
unfolding set_mode change_mode prescan postscan
set_mode-loaded r code m e = elim (Option-cases (set_mode r code).1.impl) [
  | inl n ↦ absurd (ground (arith, e, n))
  | inr (m', e') ↦ (m', e')
]

-- of a loaded program, the fault record and the diagnostics are there
last_fault-loaded :
    {W : Type 0} (r : Runtime W) (m : Impl) → r.impl ≡ some m → runtime_last_fault r ≡ ret m.fault
unfolding runtime_last_fault
last_fault-loaded r m e = rw e refl

get_diagnostics-loaded :
    {W : Type 0} (r : Runtime W) (m : Impl)
    → r.impl ≡ some m
    → runtime_get_diagnostics r ≡ ret m.diag
unfolding runtime_get_diagnostics
get_diagnostics-loaded r m e = rw e refl

set_mode-context : {W : Type 0} (r : Runtime W) (code : ℕ) → (set_mode r code).1.context ≡ r.context
unfolding set_mode change_mode prescan postscan
set_mode-context r code = ground arith

module _ (z : Sizes) (fl : Floats) (word fuel : ℕ) where
  -- What the demo has done with the loaded runtime `r`: it asked for RUN, scanned once if it got it,
  -- and ended with `o`.
  pub data Ran (r : Runtime TestHal) (o : Outcome) : Type 0 where
    not_started :
        (m : Impl)
        → (set_mode r 1).0 ≢ ok
        → (set_mode r 1).1.impl ≡ some m
        → o ≡ fault (ret m.fault)
        → Ran r o
    scan_failed :
        (st : Status) (r' : Runtime TestHal) (m : Impl)
        → (set_mode r 1).0 ≡ ok
        → scan (test_hal word) fl fuel (set_mode r 1).1 ≡ some (st, r')
        → st ≢ ok
        → r'.impl ≡ some m
        → o ≡ fault (ret m.fault)
        → Ran r o
    scanned_once :
        (r' end : Runtime TestHal) (m : Impl)
        → (set_mode r 1).0 ≡ ok
        → scan (test_hal word) fl fuel (set_mode r 1).1 ≡ some (ok, r')
        → r'.impl ≡ some m
        → r'.mode ≡ Mode.run
        → o ≡ done (ret m.diag) r'.context.writes end
        → end.impl ≡ none
        → end.mode ≡ Mode.program
        → end.context ≡ r'.context
        → Ran r o

  abbrev pub Runs : Runtime TestHal → Option Outcome → Type 0
  Runs r none = ⊥
  Runs r (some o) = Ran r o

  -- RUN is the mode of code 1
  run-mode :
      (r : Runtime TestHal) (r₁ : Runtime TestHal) → set_mode r 1 ≡ (ok, r₁) → r₁.mode ≡ Mode.run
  run-mode r r₁ e =
      let (mode, p, c) = set_mode-ok r 1 (ap (λ (x : Status × Runtime TestHal). x.0) e) in
      ap (λ (x : Status × Runtime TestHal). x.1.mode) (sym e) ∙ c.0 ∙ sym (some-injective _ _ p)

  module _ (r r₁ : Runtime TestHal) (m : Impl) (e : set_mode r 1 ≡ (ok, r₁)) where
    running : (set_mode r 1).0 ≡ ok
    running = ap (λ (x : Status × Runtime TestHal). x.0) e

    scans :
        (y : Option (Status × Runtime TestHal))
        → scan (test_hal word) fl fuel r₁ ≡ y
        → scan (test_hal word) fl fuel (set_mode r 1).1 ≡ y
    scans y k = ap (λ (x : Status × Runtime TestHal). scan (test_hal word) fl fuel x.1) e ∙ k

    report-Ran :
        (r' : Runtime TestHal)
        → scan (test_hal word) fl fuel r₁ ≡ some (ok, r')
        → ScanEnd r₁ m ok r'
        → Ran r (report z fl word fuel r')
    unfolding deinit
    report-Ran r' k x =
        scanned_once r' (deinit (set_mode r' 0).1) x.m' running (scans (some (ok, r')) k) x.loaded
          (x.kept.mode refl ∙ run-mode r r₁ e)
          (ap (λ d. done d r'.context.writes (deinit (set_mode r' 0).1))
            (get_diagnostics-loaded r' x.m' x.loaded))
          refl refl (set_mode-context r' 0)

    failed_scan-Ran :
        (st : Status) (r' : Runtime TestHal)
        → scan (test_hal word) fl fuel r₁ ≡ some (st, r')
        → st ≢ ok
        → ScanEnd r₁ m st r'
        → Runs r (failed z fl word fuel r')
    failed_scan-Ran st r' k bad x =
        scan_failed st r' x.m' running (scans (some (st, r')) k) bad x.loaded
          (ap fault (last_fault-loaded r' x.m' x.loaded))

    scanned-Runs :
        (y : Option (Status × Runtime TestHal))
        → scan (test_hal word) fl fuel r₁ ≡ y
        → ScanEnds r₁ m y
        → Runs r (scanned z fl word fuel y)
    scanned-Runs none k x = x
    scanned-Runs (some (ok, r')) k x = report-Ran r' k x
    scanned-Runs (some (st, r')) k x = failed_scan-Ran st r' k (λ p. cc) x

  started-Runs :
      (r : Runtime TestHal) (x : Status × Runtime TestHal) (m : Impl)
      → set_mode r 1 ≡ x
      → x.1.impl ≡ some m
      → (x.0 ≡ ok → ScanEnds x.1 m (scan (test_hal word) fl fuel x.1))
      → Runs r (started z fl word fuel x)
  started-Runs r (ok, r₁) m k e h =
      scanned-Runs r r₁ m k (scan (test_hal word) fl fuel r₁) refl (h refl)
  started-Runs r (st, r₁) m k e h =
      not_started m (λ p. let q = ap (λ (x : Status × Runtime TestHal). x.0) k in cc)
        (ap (λ (x : Status × Runtime TestHal). x.1.impl) k ∙ e)
        (ap fault (last_fault-loaded r₁ m e))

  loaded-Runs :
      (l : Status × Runtime TestHal)
      → l.0 ≡ ok
      → Runs l.1 (started z fl word fuel (set_mode l.1 1))
      → Runs l.1 (loaded z fl word fuel l)
  loaded-Runs (ok, r) e h = h
  loaded-Runs (_, r) e h = cc

  -- An image for which the core asks for `need` bytes, in a block of that size within the address
  -- space, is loaded, whatever its address: the demo, on more fuel than the program has rungs plus
  -- one, ends. After the load it asks for RUN; if that fails, it prints the fault record that is then
  -- there. Else it makes one scan, which ends; if this fails, it prints the fault record after it, and
  -- else, still in RUN, the diagnostics and the count of writes after it, and ends in PROGRAM with
  -- nothing loaded and the HAL as the scan left it.
  pub main-Ran :
      (x : Bytes) (need a : ℕ) (malloc : ℕ → Option ℕ)
      → required_memory z x (length x) ≡ ret need
      → malloc need ≡ some a
      → a + need ≤ size_max
      → ((m : Impl)
          → (load_image z (Lifecycle.init a need init) x (length x)).1.impl ≡ some m
          → suc m.rungs < fuel)
      → ((load_image z (Lifecycle.init a need init) x (length x)).0 ≡ ok)
        × Runs
            (load_image z (Lifecycle.init a need init) x (length x)).1
            (main z fl word fuel 2 (some x) malloc)
  unfolding main run_image Lifecycle.init
  main-Ran x need a malloc h k s f =
      let r = Lifecycle.init a need init in
      let l = load_image z r x (length x) in
      let good = load_image-enough z r x (length x) need h refl (omega arith) s in
      let (m, e, _) = Loads-ok z r x (length x) l (load_image-Loads z r x (length x)) good in
      let (m', e') = set_mode-loaded l.1 1 m e in
      let ends : (set_mode l.1 1).0 ≡ ok
          → ScanEnds (set_mode l.1 1).1 m' (scan (test_hal word) fl fuel (set_mode l.1 1).1) =
        λ g.
          let (m₁, e₁, _, p) =
            load_image-scan z (test_hal word) fl fuel r x (length x) 1 m good e g (f m e) in
          subst
            (λ y. ScanEnds (set_mode l.1 1).1 y (scan (test_hal word) fl fuel (set_mode l.1 1).1))
            (some-injective _ _ (sym e₁ ∙ e')) p in
      let ran : Runs l.1 (run_image z fl word fuel x need a) =
        loaded-Runs l good (started-Runs l.1 (set_mode l.1 1) m' refl e' ends) in
      (good, rw (h, k, Runs) ran)
