-- ===== src/Core/Frame/Instructions.antt =====
-- Each instruction keeps the fixed parts.
use rsmicro.Prelude.{ℕ, ◌≡◌, refl, Bool, some, arith, get_elem?, Option-cases, inl, inr}
use Prim.Native.String.{String}
use rsmicro.Core.Words.{u32_max}
use rsmicro.Core.Types.{Value, Impl, Live, FaultCategory, payload_type, Payload}
use rsmicro.Core.Tags.{put, store}
use rsmicro.Core.Frame.{Frame, Frame-set_tag}
use rsmicro.Core.Machine.{Instr, Operand, fail, refuse, commit, settle, destination, arity_fault}
use rsmicro.Core.Execute.Bits.{exec_contact, exec_coil, exec_ons, Coil}

store-payload_type :
    (p q : Payload) (v : Value) → store p v ≡ some q → payload_type q ≡ payload_type p
store-payload_type (Payload.b x) q v h = cc
store-payload_type p q v h = ground arith

pub put-Frame : (m : Impl) (id : ℕ) (v : Value) → Frame m (put m id v).1
unfolding put
put-Frame m id v = elim (Option-cases (get_elem? m.tag id)) [
  | inl e ↦ ground arith
  | inr (t, e) ↦ elim (Option-cases (store t.v v)) [
    | inl e' ↦ ground arith
    | inr (p, e') ↦ ground (arith, Frame-set_tag m id t p, store-payload_type t.v p v)
  ]
]

pub destination-Frame : (m : Impl) (o : Operand) (v : Value) → Frame m (destination m o v).1
unfolding destination
destination-Frame m o v = ground (arith, put-Frame m o.word v)

module _ {W : Type 0} (now : W → ℕ × W) (i : Instr) (power : Bool) (s : Live W) where
  pub commit-Frame :
      (o : Operand) (v : Value) (code : ℕ) (msg : String) (out : Bool)
      → Frame s.m (commit now i power s o v code msg out).live.m
  unfolding commit settle refuse fail
  commit-Frame o v code msg out = ground (arith, destination-Frame s.m o v)

  pub refuse-Frame :
      (c : FaultCategory) (code : ℕ) (msg : String) (tag : ℕ)
      → Frame s.m (refuse now i power s c code msg tag).live.m
  unfolding refuse fail
  refuse-Frame c code msg tag = refl

  pub arity-Frame : Frame s.m (arity_fault now i power s).live.m
  unfolding arity_fault
  arity-Frame = refuse-Frame FaultCategory.execution 2 "ARITY" u32_max

  pub contact-Frame :
      (want : Bool) (x : Value) → Frame s.m (exec_contact now i power s want x).live.m
  unfolding exec_contact refuse fail arity_fault
  contact-Frame want x = ground arith

  pub coil-Frame : (c : Coil) → Frame s.m (exec_coil now i power s c).live.m
  unfolding exec_coil
  coil-Frame c = grind (arith, commit-Frame, arity-Frame)

  pub ons-Frame : (x : Value) → Frame s.m (exec_ons now i power s x).live.m
  unfolding exec_ons
  ons-Frame x = grind (arith, commit-Frame, arity-Frame, refuse-Frame)
