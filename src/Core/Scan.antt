-- ===== src/Core/Scan.antt =====
-- `rsm_runtime_scan`: the input pass, the rungs, the output pass, and the diagnostics at the end.
pub mod Stops
pub mod Rungs
pub mod Loop
pub mod Inputs
pub mod Outputs
pub mod Ends
pub mod TestMode
use Prim.Native.String.{String}
use rsmicro.Prelude.{
  ℕ, zero, suc, ◌+◌, ◌-◌, ◌*◌, ◌/◌, ◌%◌, ◌==◌, ltb, leb, if◌then◌else◌, Bool, true, not, ◌&&◌,
  Option, none, some, length, get_elem?, set,
}
use rsmicro.Core.Words.{u32, signed32, u32_max, u64_mod}
use rsmicro.Core.Types.{
  Status, ok, faulted, invalid_state, Mode, ret, err, Value, other, type_of, as_boolean, as_dint,
  as_real, Payload, Tag, tag_type, Diagnostics, FaultCategory, Impl, Hal, Runtime, Live, Floats,
}
use rsmicro.Core.Tags.{truth, bit, value}
use rsmicro.Core.Machine.{fail, set_payload, instr_size}
use rsmicro.Core.Lifecycle.{is_active, is_faulted}
use rsmicro.Core.Run.{Point, run_until}

-- What one pass of the scan returns: OK, or FAULTED after `fail`.
abbrev pub Passed : Type 0 → Type 0
Passed W = Status × Live W

-- The store of an input: only the type code was compared. The union of a timer or a counter begins
-- with PRE, which the last branch overwrites by the value's 32 bits.
abbrev pub input_payload : Payload → Value → Payload
input_payload (Payload.b _) v = Payload.b (truth (as_boolean v))
input_payload (Payload.d _) v = Payload.d (as_dint v)
input_payload (Payload.f _) v = Payload.f (as_real v)
input_payload (Payload.timer t) v = Payload.timer (record t { pre = signed32 (as_real v) })
input_payload (Payload.counter c) v = Payload.counter (record c { pre = signed32 (as_real v) })

-- a pass that is made only if the one before it returned OK
infixl 5 ◌>>=◌
abbrev pub ◌>>=◌ :
    {W : Type 0} → Option (Passed W) → (Live W → Option (Passed W)) → Option (Passed W)
none >>= k = none
some (st, s) >>= k = elim st [ ok ↦ k s | failed ↦ some (failed, s) ]

-- `m->code_size = size`
abbrev pub with_size : {W : Type 0} → ℕ → Live W → Live W
with_size size s = record s { m = record (s.m) { code_size = size } }

-- where a rung begins: with power
abbrev pub rung_start : {W : Type 0} → ℕ → Live W → Point W
rung_start o s = record { offset = o; power = true; live = s }

-- `m->code_size = saved`, which a run that does not return OK leaves out
abbrev pub restore : {W : Type 0} → ℕ → Option (Status × Point W) → Option (Status × Point W)
restore saved none = none
restore saved (some (st, p)) = elim st [
  | ok ↦ some (ok, record p { live = with_size saved p.live })
  | failed ↦ some (failed, p)
]

-- `m->rung_power[rung-1u] = power`, for a rung that the table has
abbrev pub note_power : {W : Type 0} → ℕ → Bool → Live W → Live W
note_power rung power s =
    if ltb 0 rung && leb rung s.m.rungs
    then record s { m = record (s.m) { rung_power = set s.m.rung_power (rung - 1) (bit power) } }
    else s

-- what follows the run of a rung, with `rung` rungs behind it now
abbrev pub after_rung :
    {W : Type 0}
    → ℕ
    → (ℕ → ℕ → Live W → Option (Passed W))
    → Option (Status × Point W)
    → Option (Passed W)
after_rung rung again none = none
after_rung rung again (some (st, p)) = elim st [
  | ok ↦ again p.offset rung (note_power rung p.power p.live)
  | _ ↦ some (faulted, p.live)
]

-- The duration, the count, the longest and the average, in this order.
unfoldable pub summarise : ℕ → Diagnostics → Diagnostics
summarise duration g =
    let count = (g.scan_count + 1) % u64_mod in
    record g {
      last_scan_duration_us = duration;
      scan_count = count;
      max_scan_duration_us =
          if ltb g.max_scan_duration_us duration then duration else g.max_scan_duration_us;
      average_scan_duration_us =
          (g.average_scan_duration_us
            + (duration + u64_mod - g.average_scan_duration_us) % u64_mod / count)
          % u64_mod;
    }

-- The index just past `count` instructions from `p` on, and how many there were before the end of
-- the code: the loop over `seen`, with the instructions left as fuel.
unfoldable pub rung_end : Impl → ℕ → ℕ → ℕ × ℕ
rung_end m zero p = (p, 0)
rung_end m (suc left) p =
    let rest = rung_end m left (p + instr_size m.code p) in
    if ltb p m.code_size then (rest.0, suc rest.1) else (p, 0)

module _ {W : Type 0} (hal : Hal W) where
  -- `fail` at no instruction
  unfoldable pub scan_fault : Live W → FaultCategory → ℕ → String → ℕ → Passed W
  scan_fault s category code message tag =
      (faulted, fail hal.now s category code message u32_max 0 tag)

  -- What `value(m, i, &v)` leaves in `v`: of a timer or a counter only the type is set.
  unfoldable pub current_input : Live W → ℕ → Tag → Value
  current_input s i t = elim (value s.m i) [ ret v ↦ v | err _ ↦ other (tag_type t) hal.stack_word ]

  -- One tag of the input pass, through `read_input`.
  unfoldable pub read_one : (W → ℕ → Value → Status × Value × W) → Live W → ℕ → Tag → Passed W
  read_one read s i t =
      let (st, v, context) = read s.context i (current_input s i t) in
      let s' = record s { context = context } in
      elim st [
        | ok ↦
            if not (type_of v == tag_type t)
            then scan_fault s' FaultCategory.hal 2 "INPUT_TYPE" i
            else (ok, set_payload s' i t (input_payload t.v v))
        | _ ↦ scan_fault s' FaultCategory.hal 1 "INPUT" i
      ]

  -- One round of the input pass: only an input is read, and only if the HAL has `read_input`.
  unfoldable pub input_step : ℕ → Live W → Passed W
  input_step i s = elim hal.read_input [
    | none ↦ (ok, s)
    | some read ↦ elim (get_elem? s.m.tag i) [
      | none ↦ (ok, s)
      | some t ↦ if t.storage == 1 then read_one read s i t else (ok, s)
    ]
  ]

  -- The input pass over the `left` tags from `i` on.
  unfoldable pub scan_inputs : ℕ → ℕ → Live W → Passed W
  scan_inputs zero i s = (ok, s)
  scan_inputs (suc left) i s =
      let r = input_step i s in
      let rest = scan_inputs left (i + 1) r.1 in elim r.0 [ ok ↦ rest | _ ↦ (faulted, r.1) ]

  -- One round of the output pass.
  unfoldable pub output_step : (W → ℕ → Value → Status × W) → ℕ → Live W → Passed W
  output_step write i s = elim (get_elem? s.m.tag i) [
    | none ↦ (ok, s)
    | some t ↦ if not (t.storage == 2) then (ok, s) else elim (value s.m i) [
      | err _ ↦ scan_fault s FaultCategory.hal 3 "OUTPUT" i
      | ret v ↦
          let (st, context) = write s.context i v in
          let s' = record s { context = context } in
          elim st [ ok ↦ (ok, s') | _ ↦ scan_fault s' FaultCategory.hal 3 "OUTPUT" i ]
    ]
  ]

  unfoldable pub output_loop : (W → ℕ → Value → Status × W) → ℕ → ℕ → Live W → Passed W
  output_loop write zero i s = (ok, s)
  output_loop write (suc left) i s =
      let r = output_step write i s in
      let rest = output_loop write left (i + 1) r.1 in elim r.0 [ ok ↦ rest | _ ↦ (faulted, r.1) ]

  -- The output pass: in RUN only.
  unfoldable pub scan_outputs : Live W → Passed W
  scan_outputs s = elim s.mode [
    | Mode.run ↦ elim hal.write_output [
      | none ↦ (ok, s)
      | some write ↦ output_loop write (length s.m.tag) 0 s
    ]
    | _ ↦ (ok, s)
  ]

  -- The diagnostics at the end of a scan, in uint64_t arithmetic.
  abbrev pub end_diagnostics : ℕ → ℕ → Diagnostics → Diagnostics
  end_diagnostics start end g = summarise ((end + u64_mod - start) % u64_mod) g

  -- The watchdog is kicked last.
  unfoldable pub scan_end : ℕ → Live W → Passed W
  scan_end start s =
      let (end, context) = hal.now s.context in
      let s' = record s {
        m = record (s.m) { diag = end_diagnostics start end s.m.diag };
        context = context;
      } in
      elim hal.kick_watchdog [
        | none ↦ (ok, s')
        | some kick ↦
            let (st, context') = kick s'.context in
            let kicked = record s' { context = context' } in
            elim st [
              | ok ↦ (ok, kicked)
              | _ ↦ scan_fault kicked FaultCategory.watchdog 1 "WATCHDOG" u32_max
            ]
      ]

  module _ (fl : Floats) where
    -- One rung, from `o` up to `stop`. Where the rung ends before the code does, `m->code_size` is
    -- moved to its end for the run, and moved back only if the run returns OK.
    unfoldable pub run_rung : ℕ → ℕ → ℕ → ℕ → Live W → Option (Status × Point W)
    run_rung fuel tick o stop s =
        if ltb stop s.m.code_size
        then restore s.m.code_size
            (run_until hal.now fl fuel tick 0 (rung_start o (with_size stop s)))
        else run_until hal.now fl fuel tick 0 (rung_start o s)

    -- The rung loop at offset `o`, with `rung` rungs behind it.
    unfoldable pub scan_rungs : ℕ → ℕ → ℕ → ℕ → Live W → Option (Passed W)
    scan_rungs zero tick o rung s = none
    scan_rungs (suc fuel) tick o rung s =
        let again = scan_rungs fuel tick in
        let count = u32 s.m.rung_data (rung * 12 + 8) in
        let found = rung_end s.m count o in
        let known =
          if found.1 == count
          then after_rung (suc rung) (again) (run_rung (suc s.m.code_size) tick o found.0 s)
          else some (scan_fault s FaultCategory.execution 21 "RUNG_RANGE" u32_max) in
        let beyond =
          after_rung rung (again) (run_rung (suc s.m.code_size) tick o s.m.code_size s) in
        if not (ltb o s.m.code_size)
        then some (ok, s)
        else if ltb rung s.m.rungs
        then known
        else beyond

    -- The passes of a scan that started at `tick`, one after the other until one fails.
    unfoldable pub scan_passes : ℕ → ℕ → Live W → Option (Passed W)
    scan_passes fuel tick s = do
      s₁ ← some (scan_inputs (length s.m.tag) 0 s)
      s₂ ← scan_rungs fuel tick 0 0 s₁
      s₃ ← some (scan_outputs s₂)
      some (scan_end tick s₃)

    -- The scan of a loaded runtime in RUN or TEST.
    unfoldable pub scan_live : ℕ → Live W → Option (Passed W)
    scan_live fuel s =
        let (start, context) = hal.now s.context in
        scan_passes fuel start (record s {
          m = record (s.m) { diag = record (s.m.diag) { last_scan_start_us = start } };
          context = context;
        })

    abbrev pub scanned : Runtime W → Option (Passed W) → Option (Status × Runtime W)
    scanned r none = none
    scanned r (some (st, s)) =
        some (st, record r { impl = some s.m; mode = s.mode; context = s.context })

    unfoldable pub scan : ℕ → Runtime W → Option (Status × Runtime W)
    scan fuel r = elim r.impl [
      | none ↦ some (invalid_state, r)
      | some m ↦
          if is_active r.mode
          then scanned r (scan_live fuel (record { m = m; mode = r.mode; context = r.context }))
          else if is_faulted r.mode
          then some (faulted, r)
          else some (invalid_state, r)
    ]
