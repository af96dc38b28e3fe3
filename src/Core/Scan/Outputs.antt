-- ===== src/Core/Scan/Outputs.antt =====
-- What the output pass and the end of the scan keep.
use rsmicro.Prelude.{
  ℕ, ◌≡◌, refl, zero, suc, ◌+◌, ◌==◌, not, some, none, Option, if_ind, get_elem?, length,
  if◌then◌else◌,
}
use rsmicro.Core.Types.{
  Status, ok, Result, ret, err, Value, Tag, Hal, Live, Mode, FaultCategory, Diagnostics,
}
use rsmicro.Core.Words.{u32_max}
use rsmicro.Core.Tags.{value}
use rsmicro.Core.Scan.{
  output_step, output_loop, scan_outputs, end_diagnostics, summarise, scan_end, scan_fault,
}
use rsmicro.Core.Scan.Loop.{Kept-refl, scan_fault-Kept}
use rsmicro.Core.Scan.Inputs.{StepKept, with_context-Kept, diagnosed-Kept, round-Kept}

module _ {W : Type 0} (hal : Hal W) where
  output_step-Kept :
      (write : W → ℕ → Value → Status × W) (i : ℕ) (s : Live W)
      → StepKept s (output_step hal write i s)
  unfolding output_step scan_fault
  output_step-Kept write i s = tag (get_elem? s.m.tag i)
    where
      ended :
          (st : Status) (context : W)
          → let s' = record s { context = context } in
            StepKept s
              (elim st [ ok ↦ (ok, s') | _ ↦ scan_fault hal s' FaultCategory.hal 3 "OUTPUT" i ])
      ended ok context = with_context-Kept s _ context (Kept-refl (record s { context = context }))
      ended _ context =
          with_context-Kept s _ context
            (scan_fault-Kept hal (record s { context = context }) FaultCategory.hal 3 "OUTPUT" i)

      shown :
          (x : Result Value)
          → StepKept s (elim x [
            | err _ ↦ scan_fault hal s FaultCategory.hal 3 "OUTPUT" i
            | ret v ↦
                let (st, context) = write s.context i v in
                let s' = record s { context = context } in
                elim st [ ok ↦ (ok, s') | _ ↦ scan_fault hal s' FaultCategory.hal 3 "OUTPUT" i ]
          ])
      shown (err _) = scan_fault-Kept hal s FaultCategory.hal 3 "OUTPUT" i
      shown (ret v) = ended (write s.context i v).0 (write s.context i v).1

      tag :
          (x : Option Tag)
          → StepKept s (elim x [
            | none ↦ (ok, s)
            | some t ↦ if not (t.storage == 2) then (ok, s) else elim (value s.m i) [
              | err _ ↦ scan_fault hal s FaultCategory.hal 3 "OUTPUT" i
              | ret v ↦
                  let (st, context) = write s.context i v in
                  let s' = record s { context = context } in
                  elim st [ ok ↦ (ok, s') | _ ↦ scan_fault hal s' FaultCategory.hal 3 "OUTPUT" i ]
            ]
          ])
      tag none = Kept-refl s
      tag (some t) =
          if_ind (StepKept s) (not (t.storage == 2)) _ _ (λ _. Kept-refl s)
            (λ _. shown (value s.m i))

  output_loop-Kept :
      (write : W → ℕ → Value → Status × W) (left i : ℕ) (s : Live W)
      → StepKept s (output_loop hal write left i s)
  unfolding output_loop
  output_loop-Kept write zero i s = Kept-refl s
  output_loop-Kept write (suc left) i s =
      round-Kept s (output_step hal write i s) _ (output_step-Kept write i s)
        (output_loop-Kept write left (i + 1) (output_step hal write i s).1)

  pub scan_outputs-Kept : (s : Live W) → StepKept s (scan_outputs hal s)
  unfolding scan_outputs
  scan_outputs-Kept s = active s.mode
    where
      written :
          (x : Option (W → ℕ → Value → Status × W))
          → StepKept s
              (elim x [ none ↦ (ok, s) | some write ↦ output_loop hal write (length s.m.tag) 0 s ])
      written none = Kept-refl s
      written (some write) = output_loop-Kept write (length s.m.tag) 0 s

      active :
          (mode : Mode)
          → StepKept s (elim mode [
            | Mode.run ↦ elim hal.write_output [
              | none ↦ (ok, s)
              | some write ↦ output_loop hal write (length s.m.tag) 0 s
            ]
            | _ ↦ (ok, s)
          ])
      active Mode.run = written hal.write_output
      active _ = Kept-refl s

  pub scan_end-Kept : (start : ℕ) (s : Live W) → StepKept s (scan_end hal start s)
  unfolding scan_end scan_fault summarise
  scan_end-Kept start s = watched hal.kick_watchdog
    where
      context : W
      context = (hal.now s.context).1

      g : Diagnostics
      g = end_diagnostics hal start (hal.now s.context).0 s.m.diag

      s' : Live W
      s' = record s { m = record (s.m) { diag = g }; context = context }

      counted : g.active_force_count ≡ s.m.diag.active_force_count
      counted = refl

      kicked :
          (st : Status) (c : W)
          → StepKept s' (elim st [
            | ok ↦ (ok, record s' { context = c })
            | _ ↦
                scan_fault hal
                  (record s' { context = c })
                  FaultCategory.watchdog
                  1
                  "WATCHDOG"
                  u32_max
          ])
      kicked ok c = with_context-Kept s' _ c (Kept-refl (record s' { context = c }))
      kicked _ c = with_context-Kept s' _ c (
          scan_fault-Kept hal (record s' { context = c }) FaultCategory.watchdog 1 "WATCHDOG"
            u32_max)

      watched :
          (x : Option (W → Status × W))
          → StepKept s (elim x [
            | none ↦ (ok, s')
            | some kick ↦
                let (st, c) = kick s'.context in
                elim st [
                  | ok ↦ (ok, record s' { context = c })
                  | _ ↦
                      scan_fault hal
                        (record s' { context = c })
                        FaultCategory.watchdog
                        1
                        "WATCHDOG"
                        u32_max
                ]
          ])
      watched none = diagnosed-Kept s s' g context counted (Kept-refl s')
      watched (some kick) =
          diagnosed-Kept s _ g context counted (kicked (kick context).0 (kick context).1)
