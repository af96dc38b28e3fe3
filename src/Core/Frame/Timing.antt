-- ===== src/Core/Frame/Timing.antt =====
-- TON, CTU, CTD and RES keep the fixed parts.
use rsmicro.Prelude.{
  ℕ, ◌+◌, zero, suc, ◌≡◌, refl, Bool, true, false, some, arith, List, map, get_elem?, Option-cases,
  inl, inr, map-set,
}
use Prim.Native.String.{String}
use rsmicro.Core.Words.{Bytes, u32}
use rsmicro.Core.Types.{Live, Timer, Counter, Tag, State, Payload, FaultCategory, payload_type}
use rsmicro.Core.Frame.{Frame, Frame-set_tag, Frame-set_state, state_slot}
use rsmicro.Core.Frame.Instructions.{refuse-Frame, arity-Frame}
use rsmicro.Core.Machine.{
  Instr, Operand, state_for_slot, tag_at, state_at, refuse, arity_fault, instr_size,
}
use rsmicro.Core.Execute.Timing.{
  exec_ton, exec_counter, exec_res, ton_step, counter_step, reset_states, reset_slot, clear_states,
  tag_timer, tag_counter, reset_payload,
}

pub state_for_slot-get_elem? :
    (states : List State) (slot k : ℕ) (st : State)
    → state_for_slot states slot ≡ some (k, st)
    → (get_elem? states k ≡ some st) × (st.slot ≡ slot)
unfolding state_for_slot
state_for_slot-get_elem? states slot k st h = ground arith

tag_at-timer :
    {W : Type 0} (s : Live W) (o : Operand) (t : Tag) (x : Timer)
    → tag_timer (tag_at s o) ≡ some (t, x)
    → (get_elem? s.m.tag o.word ≡ some t) × (t.v ≡ Payload.timer x)
tag_at-timer s o t x h = ground arith

tag_at-counter :
    {W : Type 0} (s : Live W) (o : Operand) (t : Tag) (x : Counter)
    → tag_counter (tag_at s o) ≡ some (t, x)
    → (get_elem? s.m.tag o.word ≡ some t) × (t.v ≡ Payload.counter x)
tag_at-counter s o t x h = ground arith

slot-ton_step :
    (power : Bool) (tick : ℕ) (x : Timer) (st : State) → (ton_step power tick x st).1.slot ≡ st.slot
unfolding ton_step
slot-ton_step true tick x st = refl
slot-ton_step false tick x st = refl

slot-counter_step :
    (up power : Bool) (x : Counter) (st : State) → (counter_step up power x st).1.slot ≡ st.slot
unfolding counter_step
slot-counter_step up power x st = refl

reset_payload-type : (p q : Payload) → reset_payload p ≡ some q → payload_type q ≡ payload_type p
reset_payload-type (Payload.timer t) q h = ground arith
reset_payload-type p q h = ground arith

slots-reset_slot :
    (states : List State) (slot : ℕ)
    → map state_slot (reset_slot states slot) ≡ map state_slot states
slots-reset_slot states slot = elim (Option-cases (state_for_slot states slot)) [
  | inl e ↦ ground arith
  | inr ((k, st), e) ↦ ground (
    arith,
    state_for_slot-get_elem? states slot k st,
    map-set state_slot states k st (record st { edge = false; valid = false; time = 0 }),
  )
]

slots-reset_states :
    (fuel : ℕ) (code : Bytes) (size word q : ℕ) (states : List State)
    → map state_slot (reset_states fuel code size word q states) ≡ map state_slot states
unfolding reset_states
slots-reset_states zero code size word q states = refl
slots-reset_states (suc fuel) code size word q states = ground (
  arith,
  slots-reset_slot states (u32 code (q + 8)),
  slots-reset_states fuel code size word (q + instr_size code q) states,
  slots-reset_states fuel code size word (q + instr_size code q)
      (reset_slot states (u32 code (q + 8))),
)

module _ {W : Type 0} (now : W → ℕ × W) (i : Instr) (power : Bool) (s : Live W) where
  pub ton-Frame : (tick : ℕ) → Frame s.m (exec_ton now i power s tick).live.m
  unfolding exec_ton
  ton-Frame tick = elim (Option-cases (tag_timer (tag_at s i.a))) [
    | inl e ↦ ground (arith, arity, timer_fault 1 "TIMER_TAG")
    | inr ((t, x), e) ↦ elim (Option-cases (state_at s i)) [
      | inl e' ↦ ground (arith, arity, timer_fault 2 "STATE_SLOT")
      | inr ((k, st), e') ↦ ground (
        arith,
        arity,
        timer_fault 3 "NEGATIVE_PRE",
        tag_at-timer s i.a t x,
        state_for_slot-get_elem? s.m.state i.slot k st,
        slot-ton_step power tick x st,
        Frame-set_tag s.m i.a.word t (Payload.timer (ton_step power tick x st).0),
        Frame-set_state s.m k st (ton_step power tick x st).1,
      )
    ]
  ]
    where
      arity : Frame s.m (arity_fault now i power s).live.m
      arity = arity-Frame now i power s

      timer_fault :
          (code : ℕ) (msg : String)
          → Frame s.m (refuse now i power s FaultCategory.timer code msg i.a.word).live.m
      timer_fault code msg = refuse-Frame now i power s FaultCategory.timer code msg i.a.word

  pub counter-Frame : (up : Bool) → Frame s.m (exec_counter now i power s up).live.m
  unfolding exec_counter
  counter-Frame up = elim (Option-cases (tag_counter (tag_at s i.a))) [
    | inl e ↦ ground (arith, arity, counter_fault 1 "COUNTER_TAG")
    | inr ((t, x), e) ↦ elim (Option-cases (state_at s i)) [
      | inl e' ↦ ground (arith, arity, counter_fault 2 "STATE_SLOT")
      | inr ((k, st), e') ↦ ground (
        arith,
        arity,
        tag_at-counter s i.a t x,
        state_for_slot-get_elem? s.m.state i.slot k st,
        slot-counter_step up power x st,
        Frame-set_tag s.m i.a.word t (Payload.counter (counter_step up power x st).0),
        Frame-set_state s.m k st (counter_step up power x st).1,
      )
    ]
  ]
    where
      arity : Frame s.m (arity_fault now i power s).live.m
      arity = arity-Frame now i power s

      counter_fault :
          (code : ℕ) (msg : String)
          → Frame s.m (refuse now i power s FaultCategory.counter code msg i.a.word).live.m
      counter_fault code msg = refuse-Frame now i power s FaultCategory.counter code msg i.a.word

  pub res-Frame : Frame s.m (exec_res now i power s).live.m
  unfolding exec_res clear_states
  res-Frame = elim (Option-cases (tag_at s i.a)) [
    | inl e ↦
        ground
          (arith, arity, refuse-Frame now i power s FaultCategory.execution 6 "RES_TAG" i.a.word)
    | inr (t, e) ↦ elim (Option-cases (reset_payload t.v)) [
      | inl e' ↦
          ground
            (arith, arity, refuse-Frame now i power s FaultCategory.execution 7 "RES_TYPE" i.a.word)
      | inr (p, e') ↦ ground (
        arith,
        arity,
        Frame-set_tag s.m i.a.word t p,
        reset_payload-type t.v p,
        slots-reset_states s.m.code_size s.m.code s.m.code_size i.a.word 0 s.m.state,
      )
    ]
  ]
    where
      arity : Frame s.m (arity_fault now i power s).live.m
      arity = arity-Frame now i power s
