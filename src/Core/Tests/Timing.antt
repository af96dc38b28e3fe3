-- ===== src/Core/Tests/Timing.antt =====
-- The timer and the counter of the small program over some scans.
use rsmicro.Prelude.{ℕ, ◌+◌, ◌*◌, ◌%◌, ◌^◌, ◌≡◌, ◌≤◌, ◌↔◌, refl, true, false, not, [], ◌∷◌, arith}
use rsmicro.Prelude.Int.{pos, ◌≤ℤ◌}
use rsmicro.Core.Types.{State}
use rsmicro.Core.Words.{unsigned32}
use rsmicro.Core.Execute.Timing.{ton_step}
use rsmicro.Core.Timing.Timers.{
  InRange, ton_step_powered, powered_scans, powered_scans_drift, powered_scans_stall,
}
use rsmicro.Core.Timing.Counters.{IsInt32, counter_scans, counter_scans_up, counter_scans_down}
use rsmicro.Core.Tests.Program.{timer, counter}

-- a state record that was last scanned with power at 1000 microseconds
abbrev started : State
started = record { slot = 0; edge = false; valid = true; time = 1000 }

ton_step_powered_example :
    let r = (ton_step true 4500 timer started).0 in
    InRange r.acc
    × (pos 0 ≤ℤ r.acc)
    × (r.en ≡ true)
    × ((r.dn ≡ true) ↔ (r.pre ≤ℤ r.acc))
    × (r.tt' ≡ not r.dn)
    × (r.pre ≡ pos 2)
ton_step_powered_example = ton_step_powered 4500 timer started (omega arith)

powered_scans_drift_example :
    (r : ℕ) × ((powered_scans (2500 ∷ 4000 ∷ []) timer started).0.acc ≡ pos r)
    × (r * 1000 ≤ 3000)
    × (3000 ≤ r * 1000 + 999 * 2)
powered_scans_drift_example =
    powered_scans_drift (2500 ∷ 4000 ∷ []) 0 timer started refl refl (omega arith) (omega arith)

powered_scans_stall_example : (powered_scans (1900 ∷ 2800 ∷ 3700 ∷ []) timer started).0.acc ≡ pos 0
powered_scans_stall_example =
    powered_scans_stall (1900 ∷ 2800 ∷ 3700 ∷ []) 0 timer started refl (omega arith) refl
      (omega arith)

counter_scans_up_example :
    let r = (counter_scans true (true ∷ true ∷ false ∷ true ∷ []) counter started).0 in
    IsInt32 r.acc × (unsigned32 r.acc ≡ 2)
counter_scans_up_example =
    counter_scans_up (true ∷ true ∷ false ∷ true ∷ []) counter started (omega arith)

counter_scans_down_example :
    let r = (counter_scans false (true ∷ false ∷ true ∷ []) counter started).0 in
    IsInt32 r.acc × ((unsigned32 r.acc + 2) % 2 ^ 32 ≡ 0)
counter_scans_down_example =
    counter_scans_down (true ∷ false ∷ true ∷ []) counter started (omega arith)
