-- ===== src/Core/Ranges/Instructions.antt =====
-- Every instruction keeps the timers' ACC in range.
use rsmicro.Prelude.{
  ℕ, ◌/◌, ◌≡◌, Bool, true, false, some, arith, get_elem?, Option-cases, inl, inr, ◌&&◌, refl,
}
use Prim.Native.String.{String}
use rsmicro.Prelude.Int.{ℤ, pos, negsuc, leb_ℤ}
use rsmicro.Core.Words.{u32_max, int32_max}
use rsmicro.Core.Types.{Status, ok, Value, Payload, Impl, Live, Timer, State, FaultCategory}
use rsmicro.Core.Tags.{put, store}
use rsmicro.Core.Ranges.{payload_ranged, Ranged, tags_ranged-set, tags_ranged-get_elem?}
use rsmicro.Core.Timing.Timers.{accumulate_pos}
use rsmicro.Core.Machine.{
  Instr, Operand, fail, refuse, settle, commit, destination, arity_fault, tag_at, state_at,
}
use rsmicro.Core.Execute.Bits.{Coil, exec_contact, exec_coil, exec_ons}
use rsmicro.Core.Execute.Timing.{
  exec_ton, exec_counter, exec_res, clear_states, ton_step, counter_step, tag_timer, tag_counter,
  reset_payload, accumulate, elapsed,
}

store-ranged : (p q : Payload) (v : Value) → store p v ≡ some q → payload_ranged q ≡ true
store-ranged (Payload.b x) q v e = ground arith
store-ranged p q v e = ground arith

pub put-Ranged : (m : Impl) (id : ℕ) (v : Value) → Ranged m → Ranged (put m id v).1
unfolding put
put-Ranged m id v h = elim (Option-cases (get_elem? m.tag id)) [
  | inl e ↦ ground arith
  | inr (t, e) ↦ elim (Option-cases (store t.v v)) [
    | inl e' ↦ ground arith
    | inr (p, e') ↦
        ground (arith, tags_ranged-set m.tag id (record t { v = p }), store-ranged t.v p v)
  ]
]

pub destination-Ranged :
    (m : Impl) (o : Operand) (v : Value) → Ranged m → Ranged (destination m o v).1
unfolding destination
destination-Ranged m o v h = ground (arith, put-Ranged m o.word v)

-- the test of `payload_ranged`
abbrev in_range : ℤ → Bool
in_range acc = leb_ℤ (pos 0) acc && leb_ℤ acc int32_max

accumulate-ranged : (acc : ℤ) (ms : ℕ) → in_range acc ≡ true → in_range (accumulate acc ms) ≡ true
accumulate-ranged (pos a) ms h =
    let (r, e, lo, hi) = accumulate_pos a ms (ground arith) in rw e (ground arith)
accumulate-ranged (negsuc a) ms h = ground arith

ton_step-ranged :
    (power : Bool) (tick : ℕ) (x : Timer) (st : State)
    → payload_ranged (Payload.timer x) ≡ true
    → payload_ranged (Payload.timer (ton_step power tick x st).0) ≡ true
unfolding ton_step
ton_step-ranged true tick x st h = accumulate-ranged x.acc (elapsed tick st / 1000) h
ton_step-ranged false tick x st h = refl

reset_payload-ranged : (p q : Payload) → reset_payload p ≡ some q → payload_ranged q ≡ true
reset_payload-ranged (Payload.timer t) q h = ground arith
reset_payload-ranged p q h = ground arith

module _ {W : Type 0} (now : W → ℕ × W) (i : Instr) (power : Bool) (s : Live W)
    (h : Ranged s.m) where
  pub refuse-Ranged :
      (c : FaultCategory) (code : ℕ) (msg : String) (tag : ℕ)
      → Ranged (refuse now i power s c code msg tag).live.m
  unfolding refuse fail
  refuse-Ranged c code msg tag = h

  pub arity-Ranged : Ranged (arity_fault now i power s).live.m
  unfolding arity_fault
  arity-Ranged = refuse-Ranged FaultCategory.execution 2 "ARITY" u32_max

  settle-Ranged :
      (tag code : ℕ) (msg : String) (out : Bool) (st : Status) (n : Impl)
      → Ranged n
      → Ranged (settle now i power s tag code msg out (st, n)).live.m
  unfolding settle refuse fail
  settle-Ranged tag code msg out ok n k = k
  settle-Ranged tag code msg out _ n k = k

  pub commit-Ranged :
      (o : Operand) (v : Value) (code : ℕ) (msg : String) (out : Bool)
      → Ranged (commit now i power s o v code msg out).live.m
  unfolding commit
  commit-Ranged o v code msg out =
      settle-Ranged o.word code msg out (destination s.m o v).0 (destination s.m o v).1
        (destination-Ranged s.m o v h)

  pub contact-Ranged : (want : Bool) (x : Value) → Ranged (exec_contact now i power s want x).live.m
  unfolding exec_contact
  contact-Ranged want x = grind (arith, arity-Ranged, refuse-Ranged)

  pub coil-Ranged : (c : Coil) → Ranged (exec_coil now i power s c).live.m
  unfolding exec_coil
  coil-Ranged c = grind (arith, commit-Ranged, arity-Ranged)

  pub ons-Ranged : (x : Value) → Ranged (exec_ons now i power s x).live.m
  unfolding exec_ons
  ons-Ranged x = grind (arith, commit-Ranged, arity-Ranged, refuse-Ranged)

  pub ton-Ranged : (tick : ℕ) → Ranged (exec_ton now i power s tick).live.m
  unfolding exec_ton
  ton-Ranged tick = elim (Option-cases (tag_timer (tag_at s i.a))) [
    | inl e ↦ grind (arith, arity-Ranged, refuse-Ranged)
    | inr ((t, x), e) ↦ elim (Option-cases (state_at s i)) [
      | inl e' ↦ grind (arith, arity-Ranged, refuse-Ranged)
      | inr ((k, st), e') ↦ ground (
        arith,
        arity-Ranged,
        refuse-Ranged FaultCategory.timer 3 "NEGATIVE_PRE" i.a.word,
        ton_step-ranged power tick x st,
        tags_ranged-get_elem? s.m.tag i.a.word t,
        tags_ranged-set s.m.tag i.a.word
            (record t { v = Payload.timer (ton_step power tick x st).0 }),
      )
    ]
  ]

  pub counter-Ranged : (up : Bool) → Ranged (exec_counter now i power s up).live.m
  unfolding exec_counter
  counter-Ranged up = elim (Option-cases (tag_counter (tag_at s i.a))) [
    | inl e ↦ grind (arith, arity-Ranged, refuse-Ranged)
    | inr ((t, x), e) ↦ elim (Option-cases (state_at s i)) [
      | inl e' ↦ grind (arith, arity-Ranged, refuse-Ranged)
      | inr ((k, st), e') ↦ ground (
        arith,
        arity-Ranged,
        tags_ranged-set s.m.tag i.a.word
            (record t { v = Payload.counter (counter_step up power x st).0 }),
      )
    ]
  ]

  pub res-Ranged : Ranged (exec_res now i power s).live.m
  unfolding exec_res clear_states
  res-Ranged = elim (Option-cases (tag_at s i.a)) [
    | inl e ↦ grind (arith, arity-Ranged, refuse-Ranged)
    | inr (t, e) ↦ elim (Option-cases (reset_payload t.v)) [
      | inl e' ↦ grind (arith, arity-Ranged, refuse-Ranged)
      | inr (p, e') ↦ ground (
        arith,
        arity-Ranged,
        reset_payload-ranged t.v p,
        tags_ranged-set s.m.tag i.a.word (record t { v = p }),
      )
    ]
  ]
