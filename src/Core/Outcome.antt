-- ===== src/Core/Outcome.antt =====
-- How an instruction ends: it runs and the runtime keeps its mode, or it faults and nothing of the
-- program's data has changed.
pub mod Execute
use rsmicro.Prelude.{
  ℕ, ◌≡◌, ◌≢◌, ◌+◌, ◌%◌, ◌^◌, Bool, true, false, arith, ap, ◌⊎◌, inl, inr, refl, get_elem?,
}
use Prim.Native.String.{String}
use rsmicro.Core.Words.{u32_max}
use rsmicro.Core.Types.{
  Status, ok, faulted, Mode, Value, dint, real, FaultCategory, Impl, Live, Floats, Diagnostics,
}
use rsmicro.Core.Tags.{put}
use rsmicro.Core.Opcode.{Opcode, opcode}
use rsmicro.Core.Machine.{
  Instr, Operand, Step, fail, refuse, commit, settle, destination, arity_fault, operand,
}
use rsmicro.Core.Execute.{dispatch, execute}
use rsmicro.Core.Execute.Bits.{Coil, exec_contact, exec_coil, exec_ons}
use rsmicro.Core.Execute.Timing.{exec_ton, exec_counter, exec_res, clear_states}
use rsmicro.Core.Execute.Arith.{
  Comparison, Operation, Computed, value, div_zero, overflow, non_finite, exec_compare, exec_clr,
  exec_mov, exec_math, exec_unary, conclude, math_on, unary_on,
}

module _ {W : Type 0} (s : Live W) where
  abbrev pub Completed : Step W → Type 0
  Completed r =
      (r.status ≡ ok)
      × (r.live.mode ≡ s.mode)
      × (r.live.m.fault ≡ s.m.fault)
      × (r.live.m.diag.fault_count ≡ s.m.diag.fault_count)

  abbrev pub Refused : Bool → Step W → Type 0
  Refused power r =
      (r.status ≡ faulted)
      × (r.live.mode ≡ Mode.faulted)
      × (r.power ≡ power)
      × (r.live.m.tag ≡ s.m.tag)
      × (r.live.m.state ≡ s.m.state)
      × (r.live.m.trace ≡ s.m.trace)
      × (r.live.m.diag.fault_count ≡ (s.m.diag.fault_count + 1) % 2 ^ 64)

  abbrev pub Outcome : Bool → Step W → Type 0
  Outcome power r = Completed r ⊎ Refused power r

-- A write that fails changes nothing, and one that succeeds reports no fault.
destination-keeps :
    (m : Impl) (o : Operand) (v : Value)
    → ((destination m o v).0 ≢ ok → (destination m o v).1 ≡ m)
      × ((destination m o v).1.fault ≡ m.fault)
      × ((destination m o v).1.diag ≡ m.diag)
unfolding destination put
destination-keeps m o v = (λ h. ground arith, ground arith, ground arith)

module _ {W : Type 0} (now : W → ℕ × W) (i : Instr) (power : Bool) (s : Live W) where
  pub refuse-Outcome :
      (c : FaultCategory) (code : ℕ) (msg : String) (tag : ℕ)
      → Outcome s power (refuse now i power s c code msg tag)
  unfolding refuse fail
  refuse-Outcome c code msg tag = inr (refl, refl, refl, refl, refl, refl, refl)

  pub arity-Outcome : Outcome s power (arity_fault now i power s)
  unfolding arity_fault
  arity-Outcome = refuse-Outcome FaultCategory.execution 2 "ARITY" u32_max

  pub settle-Outcome :
      (tag code : ℕ) (msg : String) (out : Bool) (st : Status) (n : Impl)
      → (st ≢ ok → n ≡ s.m)
      → n.fault ≡ s.m.fault
      → n.diag ≡ s.m.diag
      → Outcome s power (settle now i power s tag code msg out (st, n))
  unfolding settle refuse fail
  settle-Outcome tag code msg out ok n h f d =
      inl (refl, refl, f, ap (λ (x : Diagnostics). x.fault_count) d)
  settle-Outcome tag code msg out _ n h f d = ground (arith, h (λ e. cc))

  pub commit-Outcome :
      (o : Operand) (v : Value) (code : ℕ) (msg : String) (out : Bool)
      → Outcome s power (commit now i power s o v code msg out)
  unfolding commit
  commit-Outcome o v code msg out =
      let k = destination-keeps s.m o v in
      settle-Outcome o.word code msg out (destination s.m o v).0 (destination s.m o v).1 k.0 k.1 k.2

  pub contact-Outcome :
      (want : Bool) (x : Value) → Outcome s power (exec_contact now i power s want x)
  unfolding exec_contact
  contact-Outcome want x = grind (arith, arity-Outcome, refuse-Outcome)

  pub coil-Outcome : (c : Coil) → Outcome s power (exec_coil now i power s c)
  unfolding exec_coil
  coil-Outcome c = grind (arith, commit-Outcome, arity-Outcome)

  pub ons-Outcome : (x : Value) → Outcome s power (exec_ons now i power s x)
  unfolding exec_ons
  ons-Outcome x = grind (arith, commit-Outcome, arity-Outcome, refuse-Outcome)

  pub ton-Outcome : (tick : ℕ) → Outcome s power (exec_ton now i power s tick)
  unfolding exec_ton
  ton-Outcome tick = grind (arith, arity-Outcome, refuse-Outcome)

  pub counter-Outcome : (up : Bool) → Outcome s power (exec_counter now i power s up)
  unfolding exec_counter
  counter-Outcome up = grind (arith, arity-Outcome, refuse-Outcome)

  pub res-Outcome : Outcome s power (exec_res now i power s)
  unfolding exec_res clear_states
  res-Outcome = grind (arith, arity-Outcome, refuse-Outcome)
