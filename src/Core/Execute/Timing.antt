-- ===== src/Core/Execute/Timing.antt =====
-- `execute`: the on-delay timer TON, the counters CTU and CTD, and the reset RES.
use rsmicro.Prelude.{
  ℕ, zero, suc, ◌+◌, ◌-◌, ◌/◌, ◌%◌, ◌==◌, ltb, if◌then◌else◌, Bool, true, false, not, ◌&&◌, ◌||◌,
  List, Option, none, some, set,
}
use rsmicro.Prelude.Int.{ℤ, pos, negsuc, pos_part, ◌+ℤ◌, ◌-ℤ◌, eqb_ℤ, leb_ℤ}
use rsmicro.Core.Words.{Bytes, byte, u32, int32_max, int32_min, u64_mod}
use rsmicro.Core.Types.{FaultCategory, Live, Timer, Counter, State, Tag, Payload}
use rsmicro.Core.Machine.{
  Instr, Step, finish, refuse, arity_fault, tag_at, set_payload, set_state, state_at,
  state_for_slot, instr_size, skip,
}

-- `delta`: the microseconds since the last scan with power, 0 at the first; uint64_t arithmetic.
abbrev pub elapsed : ℕ → State → ℕ
elapsed tick st = if st.valid then (tick + u64_mod - st.time) % u64_mod else 0

-- ACC after `ms` more milliseconds, held at INT32_MAX. (INT32_MAX - ACC does not overflow where
-- ACC is not negative.)
unfoldable pub accumulate : ℤ → ℕ → ℤ
accumulate acc ms = if ltb (pos_part (int32_max -ℤ acc)) ms then int32_max else acc +ℤ pos ms

-- The two branches of TON on its timer and its state record.
unfoldable pub ton_step : Bool → ℕ → Timer → State → Timer × State
ton_step true tick t st =
    let acc = accumulate t.acc (elapsed tick st / 1000) in
    let dn = leb_ℤ t.pre acc in
    (
      record t { en = true; acc = acc; dn = dn; tt' = not dn },
      record st { valid = true; time = tick },
    )
ton_step false tick t st =
    (record t { en = false; tt' = false; dn = false; acc = pos 0 }, record st { valid = false })

abbrev pub is_negative : ℤ → Bool
is_negative (pos _) = false
is_negative (negsuc _) = true

-- One count up or down, with the wrap and its sticky flag.
unfoldable pub count_step : Bool → Counter → Counter
count_step true c =
    if eqb_ℤ c.acc int32_max
    then record c { acc = int32_min; ov = true }
    else record c { acc = c.acc +ℤ pos 1 }
count_step false c =
    if eqb_ℤ c.acc int32_min
    then record c { acc = int32_max; un = true }
    else record c { acc = c.acc -ℤ pos 1 }

-- CTU (`up`) and CTD on the counter and the state record.
unfoldable pub counter_step : Bool → Bool → Counter → State → Counter × State
counter_step up power c st =
    let marked = if up then record c { cu = power } else record c { cd = power } in
    let counted = if power && not st.edge then count_step up marked else marked in
    (record counted { dn = leb_ℤ counted.pre counted.acc }, record st { edge = power })

abbrev pub timer_of : Payload → Option Timer
timer_of (Payload.timer t) = some t
timer_of _ = none

abbrev pub counter_of : Payload → Option Counter
counter_of (Payload.counter c) = some c
counter_of _ = none

abbrev pub tag_timer : Option Tag → Option (Tag × Timer)
tag_timer none = none
tag_timer (some t) = elim (timer_of t.v) [ none ↦ none | some x ↦ some (t, x) ]

abbrev pub tag_counter : Option Tag → Option (Tag × Counter)
tag_counter none = none
tag_counter (some t) = elim (counter_of t.v) [ none ↦ none | some x ↦ some (t, x) ]

-- RES: what it leaves of a timer or a counter.
abbrev pub reset_payload : Payload → Option Payload
reset_payload (Payload.timer t) =
    some (Payload.timer (record t { acc = pos 0; en = false; tt' = false; dn = false }))
reset_payload (Payload.counter c) = some (
    Payload.counter
      (record c { acc = pos 0; cu = false; cd = false; dn = false; ov = false; un = false }))
reset_payload _ = none

abbrev pub is_timing : ℕ → Bool
is_timing op = op == 16 || op == 17 || op == 18

abbrev pub reset_slot : List State → ℕ → List State
reset_slot states slot = elim (state_for_slot states slot) [
  | none ↦ states
  | some (k, st) ↦ set states k (record st { edge = false; valid = false; time = 0 })
]

-- The loop of RES over the code up to `size`: the state of each TON, CTU and CTD of the tag is
-- cleared. Each round goes on by 12 bytes or more, so `fuel = size` is enough.
unfoldable pub reset_states : ℕ → Bytes → ℕ → ℕ → ℕ → List State → List State
reset_states zero code size word q states = states
reset_states (suc fuel) code size word q states =
    let hit = is_timing (byte code q) && byte code (q + 1) == 1 && u32 code (q + 16) == word in
    let cleared = if hit then reset_slot states (u32 code (q + 8)) else states in
    let rest = reset_states fuel code size word (q + instr_size code q) cleared in
    if ltb q size then rest else states

-- the loop at a runtime: it stops at `m->code_size`, which is the end of the running rung
unfoldable pub clear_states : {W : Type 0} → Live W → ℕ → Live W
clear_states s word = record s {
  m = record (s.m) { state = reset_states s.m.code_size s.m.code s.m.code_size word 0 s.m.state };
}

module _ {W : Type 0} (now : W → ℕ × W) (i : Instr) (power : Bool) (s : Live W) where
  unfoldable pub exec_ton : ℕ → Step W
  exec_ton tick =
      if not (i.ac == 1) then arity_fault now i power s else elim (tag_timer (tag_at s i.a)) [
        | none ↦ refuse now i power s FaultCategory.timer 1 "TIMER_TAG" i.a.word
        | some (t, x) ↦ elim (state_at s i) [
          | none ↦ refuse now i power s FaultCategory.timer 2 "STATE_SLOT" i.a.word
          | some (k, st) ↦
              if is_negative x.pre
              then refuse now i power s FaultCategory.timer 3 "NEGATIVE_PRE" i.a.word
              else let (x', st') = ton_step power tick x st in
                finish i power (set_state (set_payload s i.a.word t (Payload.timer x')) k st')
        ]
      ]

  unfoldable pub exec_counter : Bool → Step W
  exec_counter up =
      if not (i.ac == 1) then arity_fault now i power s else elim (tag_counter (tag_at s i.a)) [
        | none ↦ refuse now i power s FaultCategory.counter 1 "COUNTER_TAG" i.a.word
        | some (t, x) ↦ elim (state_at s i) [
          | none ↦ refuse now i power s FaultCategory.counter 2 "STATE_SLOT" i.a.word
          | some (k, st) ↦
              let (x', st') = counter_step up power x st in
              finish i power (set_state (set_payload s i.a.word t (Payload.counter x')) k st')
        ]
      ]

  -- Without power RES returns before the end, so `last_instruction_id` keeps its value.
  unfoldable pub exec_res : Step W
  exec_res =
      if not (i.ac == 1)
      then arity_fault now i power s
      else if not power
      then skip power s
      else elim (tag_at s i.a) [
        | none ↦ refuse now i power s FaultCategory.execution 6 "RES_TAG" i.a.word
        | some t ↦ elim (reset_payload t.v) [
          | none ↦ refuse now i power s FaultCategory.execution 7 "RES_TYPE" i.a.word
          | some p ↦ finish i power (clear_states (set_payload s i.a.word t p) i.a.word)
        ]
      ]
