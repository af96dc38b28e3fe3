-- ===== src/Core/Timing/Timers.antt =====
-- TON: what a powered rung makes of ACC, over any number of scans.
use rsmicro.Prelude.{
  ℕ, ◌+◌, ◌-◌, ◌*◌, ◌/◌, ◌^◌, ◌≤◌, ◌<◌, ◌≡◌, refl, ◌↔◌, true, not, List, [], ◌∷◌, ap, ◌∙◌, arith,
  length, ltb, inl, inr, Bool-cases,
}
use rsmicro.Prelude.Int.{ℤ, pos, negsuc, leb_ℤ, ◌≤ℤ◌, ◌+ℤ◌, ◌-ℤ◌}
use rsmicro.Core.Types.{Timer, State}
use rsmicro.Core.Words.{int32_max}
use rsmicro.Core.Execute.Timing.{accumulate, elapsed, ton_step}

-- ACC is not negative and fits an int32_t.
abbrev pub InRange : ℤ → Type 0
InRange acc = (pos 0 ≤ℤ acc) × (acc ≤ℤ int32_max)

pub accumulate_pos :
    (a ms : ℕ) → a < 2 ^ 31 → (r : ℕ) × (accumulate (pos a) ms ≡ pos r) × (a ≤ r) × (r < 2 ^ 31)
unfolding accumulate ◌+ℤ◌ ◌-ℤ◌
accumulate_pos a ms h = elim (Bool-cases (ltb (2 ^ 31 - 1 - a) ms)) [
  | inl e ↦ (2 ^ 31 - 1, ground arith, omega arith, omega arith)
  | inr e ↦ (a + ms, ground arith, omega arith, ground arith)
]

accumulate_bounds :
    (acc : ℤ) (ms : ℕ) → InRange acc → InRange (accumulate acc ms) × (acc ≤ℤ accumulate acc ms)
accumulate_bounds (pos a) ms h =
    let (r, e, lo, hi) = accumulate_pos a ms (omega arith) in
    rw e ((omega arith, omega arith), omega arith)
accumulate_bounds (negsuc a) ms h = absurd (omega arith)

leb_ℤ_iff : (a b : ℤ) → (leb_ℤ a b ≡ true) ↔ (a ≤ℤ b)
leb_ℤ_iff a b = ground arith

-- A scan with power leaves ACC in the range of a non-negative int32_t, EN set, DN exactly when ACC
-- has reached PRE, TT exactly when it has not, and PRE as it was.
pub ton_step_powered :
    (tick : ℕ) (t : Timer) (st : State)
    → InRange t.acc
    → let r = (ton_step true tick t st).0 in
      InRange r.acc
      × (t.acc ≤ℤ r.acc)
      × (r.en ≡ true)
      × ((r.dn ≡ true) ↔ (r.pre ≤ℤ r.acc))
      × (r.tt' ≡ not r.dn)
      × (r.pre ≡ t.pre)
unfolding ton_step
ton_step_powered tick t st h =
    let k = accumulate_bounds t.acc (elapsed tick st / 1000) h in
    (k.0, k.1, refl, leb_ℤ_iff t.pre _, refl, refl)

-- The scans of one TON whose rung has power at each of the given times.
unfoldable pub powered_scans : List ℕ → Timer → State → Timer × State
powered_scans [] t st = (t, st)
powered_scans (tick ∷ ticks) t st = let r = ton_step true tick t st in powered_scans ticks r.0 r.1

-- Clock readings that do not go back, from `start` on, within a uint64_t; and the last of them.
abbrev pub Monotonic : ℕ → List ℕ → Type 0
Monotonic start [] = start < 2 ^ 64
Monotonic start (tick ∷ ticks) = (start ≤ tick) × Monotonic tick ticks

abbrev pub last_tick : ℕ → List ℕ → ℕ
last_tick start [] = start
last_tick start (tick ∷ ticks) = last_tick tick ticks

Monotonic-le : (start : ℕ) (ticks : List ℕ) → Monotonic start ticks → start ≤ last_tick start ticks
Monotonic-le start [] h = omega arith
Monotonic-le start (tick ∷ ticks) h = omega (arith, Monotonic-le tick ticks h.1)

Monotonic-lt : (start : ℕ) (ticks : List ℕ) → Monotonic start ticks → start < 2 ^ 64
Monotonic-lt start [] h = h
Monotonic-lt start (tick ∷ ticks) h = omega (arith, Monotonic-lt tick ticks h.1)

elapsed_lem :
    (tick : ℕ) (st : State)
    → st.valid ≡ true
    → st.time ≤ tick
    → tick < 2 ^ 64
    → elapsed tick st ≡ tick - st.time
elapsed_lem tick st v h k = ground arith

accumulate_exact : (a ms : ℕ) → a + ms < 2 ^ 31 → accumulate (pos a) ms ≡ pos (a + ms)
unfolding accumulate ◌+ℤ◌ ◌-ℤ◌
accumulate_exact a ms h = ground arith

-- One scan below saturation adds the whole milliseconds since the last one.
scan_adds :
    (a tick : ℕ) (t : Timer) (st : State)
    → t.acc ≡ pos a
    → st.valid ≡ true
    → st.time ≤ tick
    → tick < 2 ^ 64
    → a + (tick - st.time) / 1000 < 2 ^ 31
    → (ton_step true tick t st).0.acc ≡ pos (a + (tick - st.time) / 1000)
unfolding ton_step
scan_adds a tick t st e v h k l =
    rw (e, elapsed_lem tick st v h k) (accumulate_exact a ((tick - st.time) / 1000) l)

-- A TON that is scanned with power from a first scan on loses less than a millisecond a scan: while
-- ACC does not saturate, the time since the first scan is at least ACC milliseconds, and at most
-- ACC milliseconds and 999 microseconds for each further scan.
pub powered_scans_drift :
    (ticks : List ℕ) (a : ℕ) (t : Timer) (st : State)
    → t.acc ≡ pos a
    → st.valid ≡ true
    → Monotonic st.time ticks
    → a + (last_tick st.time ticks - st.time) / 1000 < 2 ^ 31
    → (r : ℕ) × ((powered_scans ticks t st).0.acc ≡ pos r)
      × (r * 1000 ≤ a * 1000 + (last_tick st.time ticks - st.time))
      × (a * 1000 + (last_tick st.time ticks - st.time) ≤ r * 1000 + 999 * length ticks)
unfolding powered_scans ton_step
powered_scans_drift [] a t st e v m l = (a, e, omega arith, omega arith)
powered_scans_drift (tick ∷ ticks) a t st e v m l =
    let le = Monotonic-le tick ticks m.1 in
    let step = scan_adds a tick t st e v m.0 (Monotonic-lt tick ticks m.1) (omega arith) in
    let (r, q, lo, hi) =
      powered_scans_drift ticks (a + (tick - st.time) / 1000) (ton_step true tick t st).0
        (ton_step true tick t st).1 step (refl) (m.1) (omega arith) in
    (r, q, omega arith, omega arith)

-- Scans less than a millisecond apart, from `start` on.
abbrev pub Rapid : ℕ → List ℕ → Type 0
Rapid start [] = start < 2 ^ 64
Rapid start (tick ∷ ticks) = (start ≤ tick) × (tick < start + 1000) × Rapid tick ticks

Rapid-lt : (start : ℕ) (ticks : List ℕ) → Rapid start ticks → start < 2 ^ 64
Rapid-lt start [] h = h
Rapid-lt start (tick ∷ ticks) h = omega (arith, Rapid-lt tick ticks h.2)

-- A TON that is scanned with power at intervals below a millisecond never times: ACC keeps its value
-- however many scans there are and however long the rung stays powered.
pub powered_scans_stall :
    (ticks : List ℕ) (a : ℕ) (t : Timer) (st : State)
    → t.acc ≡ pos a
    → a < 2 ^ 31
    → st.valid ≡ true
    → Rapid st.time ticks
    → (powered_scans ticks t st).0.acc ≡ pos a
unfolding powered_scans ton_step
powered_scans_stall [] a t st e b v m = e
powered_scans_stall (tick ∷ ticks) a t st e b v m =
    powered_scans_stall ticks a (ton_step true tick t st).0 (ton_step true tick t st).1
      (scan_adds a tick t st e v m.0 (Rapid-lt tick ticks m.2) (omega arith) ∙ ap pos (omega arith))
      b (refl) (m.2)
