-- ===== src/Core/Timing/Counters.antt =====
-- CTU and CTD: the count of the rising edges, over any number of scans.
use rsmicro.Prelude.{
  ℕ, ◌+◌, ◌%◌, ◌^◌, ◌≡◌, Bool, true, false, not, List, [], ◌∷◌, arith, ◌&&◌, if◌then◌else◌,
}
use rsmicro.Prelude.Int.{ℤ, ◌≤ℤ◌, ◌+ℤ◌, ◌-ℤ◌}
use rsmicro.Core.Types.{Counter, State}
use rsmicro.Core.Words.{int32_max, int32_min, unsigned32}
use rsmicro.Core.Execute.Timing.{count_step, counter_step}

abbrev pub IsInt32 : ℤ → Type 0
IsInt32 x = (int32_min ≤ℤ x) × (x ≤ℤ int32_max)

count_up_acc :
    (c : Counter)
    → IsInt32 c.acc
    → IsInt32 (count_step true c).acc
      × (unsigned32 (count_step true c).acc ≡ (unsigned32 c.acc + 1) % 2 ^ 32)
unfolding count_step ◌+ℤ◌ ◌-ℤ◌
count_up_acc c h = ground arith

count_down_acc :
    (c : Counter)
    → IsInt32 c.acc
    → IsInt32 (count_step false c).acc
      × ((unsigned32 (count_step false c).acc + 1) % 2 ^ 32 ≡ unsigned32 c.acc)
unfolding count_step ◌+ℤ◌ ◌-ℤ◌
count_down_acc c h = ground arith

-- The scans of one CTU (`up`) or CTD with the given powers.
unfoldable pub counter_scans : Bool → List Bool → Counter → State → Counter × State
counter_scans up [] c st = (c, st)
counter_scans up (p ∷ ps) c st = let r = counter_step up p c st in counter_scans up ps r.0 r.1

-- The changes from false to true, after a scan with power `before`.
abbrev pub rises : Bool → List Bool → ℕ
rises before [] = 0
rises before (p ∷ ps) = (if p && not before then 1 else 0) + rises p ps

up_step :
    (p : Bool) (c : Counter) (st : State)
    → IsInt32 c.acc
    → IsInt32 (counter_step true p c st).0.acc
      × (unsigned32 (counter_step true p c st).0.acc
          ≡ (unsigned32 c.acc + (if p && not st.edge then 1 else 0)) % 2 ^ 32)
unfolding counter_step
up_step p c st h = ground (arith, count_up_acc (record c { cu = p }))

down_step :
    (p : Bool) (c : Counter) (st : State)
    → IsInt32 c.acc
    → IsInt32 (counter_step false p c st).0.acc
      × ((unsigned32 (counter_step false p c st).0.acc + (if p && not st.edge then 1 else 0))
            % 2 ^ 32
          ≡ unsigned32 c.acc)
unfolding counter_step
down_step p c st h = ground (arith, count_down_acc (record c { cd = p }))

-- Over any scans CTU adds to ACC one for each change of the rung from false to true, modulo 2 ^ 32
-- and with no clamp at PRE, and ACC stays an int32_t.
pub counter_scans_up :
    (ps : List Bool) (c : Counter) (st : State)
    → IsInt32 c.acc
    → IsInt32 (counter_scans true ps c st).0.acc
      × (unsigned32 (counter_scans true ps c st).0.acc
          ≡ (unsigned32 c.acc + rises st.edge ps) % 2 ^ 32)
unfolding counter_scans counter_step
counter_scans_up [] c st h = (h, ground arith)
counter_scans_up (p ∷ ps) c st h =
    let k = up_step p c st h in
    let ih = counter_scans_up ps (counter_step true p c st).0 (counter_step true p c st).1 k.0 in
    (ih.0, omega (arith, ih.1, k.1))

-- Over any scans CTD takes from ACC one for each change of the rung from false to true, modulo
-- 2 ^ 32, and ACC stays an int32_t.
pub counter_scans_down :
    (ps : List Bool) (c : Counter) (st : State)
    → IsInt32 c.acc
    → IsInt32 (counter_scans false ps c st).0.acc
      × ((unsigned32 (counter_scans false ps c st).0.acc + rises st.edge ps) % 2 ^ 32
          ≡ unsigned32 c.acc)
unfolding counter_scans counter_step
counter_scans_down [] c st h = (h, ground arith)
counter_scans_down (p ∷ ps) c st h =
    let k = down_step p c st h in
    let ih =
      counter_scans_down ps (counter_step false p c st).0 (counter_step false p c st).1 k.0 in
    (ih.0, omega (arith, ih.1, k.1))
