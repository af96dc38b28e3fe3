-- ===== src/Core/Slots.antt =====
-- The binary search of `state_for_slot` on the ascending slots of a loaded program.
use rsmicro.Prelude.{
  ℕ, zero, suc, ◌+◌, ◌-◌, ◌/◌, ◌≤◌, ◌<◌, ◌≡◌, ◌↔◌, List, some, arith, length, get_elem?,
  get_elem?-of_lt, get_elem?-lt, if_ind, Bool-cases, inl, inr, ltb, true, false, ltb→lt,
  some-injective, subst, ap, sym, if◌then◌else◌, Bool,
}
use rsmicro.Core.Types.{State}
use rsmicro.Core.Frame.Timing.{state_for_slot-get_elem?}
use rsmicro.Core.Machine.{slot_below, lower_bound, state_for_slot}

-- The slots rise strictly from one record to any later one.
abbrev pub Ascending : List State → Type 0
Ascending states =
    (i j : ℕ) (a b : State)
    → i < j
    → get_elem? states i ≡ some a
    → get_elem? states j ≡ some b
    → a.slot < b.slot

module _ (states : List State) (slot : ℕ) where
  -- the records before `low` have smaller slots
  abbrev pub Below : ℕ → Type 0
  Below low = (i : ℕ) (a : State) → i < low → get_elem? states i ≡ some a → a.slot < slot

  -- the records from `high` on have no smaller ones
  abbrev pub Above : ℕ → Type 0
  Above high = (i : ℕ) (a : State) → high ≤ i → get_elem? states i ≡ some a → slot ≤ a.slot

  module _ (up : Ascending states) where
    Below-middle : (k : ℕ) (s : State) → get_elem? states k ≡ some s → s.slot < slot → Below (k + 1)
    Below-middle k s e h i a l f = elim (Bool-cases (ltb i k)) [
      | inl c ↦ omega (arith, up i k a s (ltb→lt i k c) f e)
      | inr c ↦
          let same : i ≡ k = ground arith in
          let g : some a ≡ some s = ground (arith, ap (get_elem? states) same) in
          subst (λ (x : State). x.slot < slot) (sym (some-injective _ _ g)) h
    ]

    Above-middle : (k : ℕ) (s : State) → get_elem? states k ≡ some s → slot ≤ s.slot → Above k
    Above-middle k s e h i a l f = elim (Bool-cases (ltb k i)) [
      | inl c ↦ omega (arith, up k i s a (ltb→lt k i c) e f)
      | inr c ↦
          let same : i ≡ k = ground arith in
          let g : some a ≡ some s = ground (arith, ap (get_elem? states) same) in
          subst (λ (x : State). slot ≤ x.slot) (sym (some-injective _ _ g)) h
    ]

    -- With this fuel the search splits the records at the slot.
    abbrev Splits : ℕ → Type 0
    Splits fuel =
        (low high : ℕ)
        → low ≤ high
        → high ≤ length states
        → high - low ≤ fuel
        → Below low
        → Above high
        → Below (lower_bound fuel states slot low high)
          × Above (lower_bound fuel states slot low high)

    Splits-suc : (fuel : ℕ) → Splits fuel → Splits (suc fuel)
    unfolding lower_bound
    Splits-suc fuel ih low high o l f b a =
        if_ind (λ r. Below r × Above r) (ltb low high) _ low (λ c. round (ltb→lt low high c))
          (λ c. let empty : high ≤ low = ground arith in (b, λ i x m e. a i x (omega arith) e))
      where
        middle : ℕ
        middle = low + (high - low) / 2

        next : Bool → ℕ
        next c =
            lower_bound fuel states slot (if c then middle + 1 else low)
              (if c then high else middle)

        round :
            low < high
            → Below (next (slot_below (get_elem? states middle) slot))
              × Above (next (slot_below (get_elem? states middle) slot))
        round h =
            let (s, e) = get_elem?-of_lt states middle (omega arith) in
            elim (Bool-cases (ltb s.slot slot)) [
              | inl c ↦
                  let t : slot_below (get_elem? states middle) slot ≡ true = ground arith in
                  rw t (
                    ih (middle + 1) high (omega arith) l (omega arith)
                      (Below-middle middle s e (ltb→lt _ _ c)) a)
              | inr c ↦
                  let t : slot_below (get_elem? states middle) slot ≡ false = ground arith in
                  rw t (
                    ih low middle (omega arith) (omega arith) (omega arith) b
                      (Above-middle middle s e (ground arith)))
            ]

    lower_bound-Splits : (fuel : ℕ) → Splits fuel
    unfolding lower_bound
    lower_bound-Splits zero low high o l f b a = (b, λ i x m e. a i x (omega arith) e)
    lower_bound-Splits (suc fuel) low high o l f b a =
        Splits-suc fuel (lower_bound-Splits fuel) low high o l f b a

    split_at :
        let low = lower_bound (length states) states slot 0 (length states) in Below low × Above low
    split_at =
        lower_bound-Splits (length states) 0 (length states) (omega arith) (omega arith)
          (omega arith) (λ i a h e. absurd (omega arith)) (λ i a h e. absurd (beyond i a h e))
      where
        beyond : (i : ℕ) (a : State) → length states ≤ i → get_elem? states i ≡ some a → ⊥
        beyond i a h e = omega (arith, get_elem?-lt states i a e)

    -- the search ends at the record of the slot, if there is one
    split_is :
        (k : ℕ) (st : State)
        → get_elem? states k ≡ some st
        → st.slot ≡ slot
        → lower_bound (length states) states slot 0 (length states) ≡ k
    split_is k st e q =
        let low = lower_bound (length states) states slot 0 (length states) in
        let (below, above) = split_at in
        elim (Bool-cases (ltb k low)) [
          | inl c ↦ absurd (omega (arith, below k st (ltb→lt _ _ c) e))
          | inr c ↦ elim (Bool-cases (ltb low k)) [
            | inl d ↦
                let (t, f) =
                  get_elem?-of_lt states low
                    (omega (arith, ltb→lt _ _ d, get_elem?-lt states k st e)) in
                absurd
                  (omega (arith, above low t (omega arith) f, up low k t st (ltb→lt _ _ d) f e))
            | inr d ↦ ground arith
          ]
        ]

    state_for_slot-finds :
        (k : ℕ) (st : State)
        → get_elem? states k ≡ some st
        → st.slot ≡ slot
        → state_for_slot states slot ≡ some (k, st)
    unfolding state_for_slot
    state_for_slot-finds k st e q =
        ground (arith, ap (get_elem? states) (split_is k st e q), split_is k st e q)

-- On ascending slots the binary search returns index `k` and its record exactly when the record at
-- `k` has the slot that is looked for.
pub state_for_slot_iff :
    (states : List State) (slot k : ℕ) (st : State)
    → Ascending states
    → (state_for_slot states slot ≡ some (k, st))
      ↔ ((get_elem? states k ≡ some st) × (st.slot ≡ slot))
state_for_slot_iff states slot k st up = (
  state_for_slot-get_elem? states slot k st,
  λ h. state_for_slot-finds states slot up k st h.0 h.1,
)
