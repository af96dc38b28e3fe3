-- ===== src/Core/Image/SlotTable.antt =====
-- The state records that the loader makes: one per TON, CTU and CTD, with rising slots.
use rsmicro.Prelude.{
  ℕ, zero, suc, ◌+◌, ◌^◌, ◌≡◌, ◌<◌, refl, sym, ap, subst, ◌∙◌, Bool, true, false, ltb, leb, ltb→lt,
  if◌then◌else◌, Bool-cases, Option-cases, inl, inr, some, some-injective, [], ◌∷◌, ◌++◌, List,
  arith, length, get_elem?, set,
}
use rsmicro.Core.Words.{Bytes, byte, u32}
use rsmicro.Core.Types.{ret, State}
use rsmicro.Core.Machine.{instr_size}
use rsmicro.Core.Slots.{Ascending}
use rsmicro.Core.Image.Sections.{has_state, count_slots}
use rsmicro.Core.Image.Code.{
  CodeState, check_instr, check_plain, check_branch, take_slot, slot_ok, check_code,
}
use rsmicro.Core.Opcode.{branch_begin_code}
use rsmicro.Core.Image.WellCoded.{check_code-RoundAt}
use rsmicro.Core.Image.Load.{fill_slots}

abbrev slot_state : ℕ → State
slot_state n = record { slot = n; edge = false; valid = false; time = 0 }

-- The slots of a table rise, and all of them are above the bound, if there is one.
abbrev pub Rises : Bool → ℕ → List State → Type 0
Rises have bound [] = Unit
Rises have bound (x ∷ xs) = (have ≡ true → bound < x.slot) × Rises true x.slot xs

Rises-above :
    (bound : ℕ) (xs : List State) (j : ℕ) (b : State)
    → Rises true bound xs
    → get_elem? xs j ≡ some b
    → bound < b.slot
Rises-above bound [] j b h e = cc
Rises-above bound (x ∷ xs) zero b h e =
    subst (λ (y : State). bound < y.slot) (some-injective _ _ e) (h.0 refl)
Rises-above bound (x ∷ xs) (suc j) b h e = omega (arith, h.0 refl, Rises-above x.slot xs j b h.1 e)

pub Rises-Ascending :
    (have : Bool) (bound : ℕ) (xs : List State) → Rises have bound xs → Ascending xs
Rises-Ascending have bound [] h i j a b l e f = cc
Rises-Ascending have bound (x ∷ xs) h zero zero a b l e f = absurd (omega arith)
Rises-Ascending have bound (x ∷ xs) h zero (suc j) a b l e f =
    subst (λ (y : State). y.slot < b.slot) (some-injective _ _ e) (Rises-above x.slot xs j b h.1 f)
Rises-Ascending have bound (x ∷ xs) h (suc i) zero a b l e f = absurd (omega arith)
Rises-Ascending have bound (x ∷ xs) h (suc i) (suc j) a b l e f =
    Rises-Ascending true x.slot xs h.1 i j a b (omega arith) e f

-- the entry past a given part, and that part with one more entry
set-append :
    (given left : List State) (x v : State)
    → set (given ++ x ∷ left) (length given) v ≡ (given ++ v ∷ []) ++ left
set-append [] left x v = refl
set-append (y ∷ given) left x v = ap (λ ys. y ∷ ys) (set-append given left x v)

append_one : (given left : List State) (v : State) → (given ++ v ∷ []) ++ left ≡ given ++ v ∷ left
append_one [] left v = refl
append_one (y ∷ given) left v = ap (λ ys. y ∷ ys) (append_one given left v)

length-append_one : (given : List State) (v : State) → length (given ++ v ∷ []) ≡ length given + 1
length-append_one [] v = refl
length-append_one (y ∷ given) v = omega (arith, length-append_one given v)

empty_of_length : (xs : List State) → length xs ≡ 0 → xs ≡ []
empty_of_length [] h = refl
empty_of_length (x ∷ xs) h = absurd (omega arith)

-- What an accepted instruction does to the last slot; `stateful` instructions take one.
abbrev Taken : Bool → ℕ → CodeState → CodeState → Type 0
Taken true slot s s' =
    (s'.have_slot ≡ true)
    × (s'.previous_slot ≡ slot)
    × (s.have_slot ≡ true → s.previous_slot < slot)
Taken false slot s s' = (s'.have_slot ≡ s.have_slot) × (s'.previous_slot ≡ s.previous_slot)

module _ (code : Bytes) (size : ℕ) where
  -- The records of the code from `p` on.
  pub records : ℕ → ℕ → List State
  records zero p = []
  records (suc fuel) p =
      let rest = records fuel (p + instr_size code p) in
      if ltb p size
      then (if has_state (byte code p) then slot_state (u32 code (p + 8)) ∷ rest else rest)
      else []

  pub fill_slots-records :
      (fuel p : ℕ) (given left : List State)
      → length left ≡ length (records fuel p)
      → fill_slots code size fuel p (length given) (given ++ left) ≡ given ++ records fuel p
  unfolding fill_slots records
  fill_slots-records zero p given left h = rw (empty_of_length left h) refl
  fill_slots-records (suc fuel) p given left h = elim (Bool-cases (ltb p size)) [
    | inr c ↦ rw (c, empty_of_length left (ground (arith, h, c))) refl
    | inl c ↦ elim (Bool-cases (has_state (byte code p))) [
      | inr d ↦
          rw (c, d)
            (fill_slots-records fuel (p + instr_size code p) given left (ground (arith, h, c, d)))
      | inl d ↦
          rw (c, d)
            (found (fill_slots-records fuel (p + instr_size code p)) left (ground (arith, h, c, d)))
    ]
  ]
    where
      v : State
      v = slot_state (u32 code (p + 8))

      next : ℕ
      next = p + instr_size code p

      found :
          ((given left : List State)
            → length left ≡ length (records fuel next)
            → fill_slots code size fuel next (length given) (given ++ left)
              ≡ given ++ records fuel next)
          → (left : List State) → length left ≡ suc (length (records fuel next))
          → fill_slots code size fuel next (length given + 1) (set (given ++ left) (length given) v)
            ≡ given ++ v ∷ records fuel next
      found rest [] k = absurd (omega arith)
      found rest (x ∷ xs) k =
          let ih = rest (given ++ v ∷ []) xs (omega arith) in
          ap (λ ys. fill_slots code size fuel next (length given + 1) ys) (set-append given xs x v)
          ∙ (ap (λ l. fill_slots code size fuel next l ((given ++ v ∷ []) ++ xs))
                (sym (length-append_one given v))
              ∙ (ih ∙ append_one given (records fuel next) v))

  pub count_slots-records :
      (fuel p count total : ℕ)
      → count_slots code size fuel p count ≡ ret total
      → total ≡ count + length (records fuel p)
  unfolding count_slots records
  count_slots-records zero p count total h = ground (arith, h)
  count_slots-records (suc fuel) p count total h = elim (Bool-cases (ltb p size)) [
    | inr c ↦ ground (arith, h, c)
    | inl c ↦ elim (Bool-cases (has_state (byte code p))) [
      | inr d ↦
          ground (arith, h, c, d, count_slots-records fuel (p + instr_size code p) count total)
      | inl d ↦
          ground
            (arith, h, c, d, count_slots-records fuel (p + instr_size code p) (count + 1) total)
    ]
  ]

  module _ (tags : Bytes) (count : ℕ) where
    check_branch-slot :
        (op : ℕ) (s s' : CodeState)
        → check_branch op s ≡ some s'
        → (s'.have_slot ≡ s.have_slot) × (s'.previous_slot ≡ s.previous_slot)
    unfolding check_branch
    check_branch-slot op s s' h = ground (arith, h)

    take_slot-Taken :
        (slot : ℕ) (s s' : CodeState)
        → take_slot slot s ≡ some s'
        → Taken (ltb slot (2 ^ 31)) slot s s'
    unfolding take_slot
    take_slot-Taken slot s s' h = elim (Bool-cases (ltb slot (2 ^ 31))) [
      | inl c ↦ rw c (ground (arith, h, c), ground (arith, h, c), λ e. ground (arith, h, c, e))
      | inr c ↦ rw c (ground (arith, h, c), ground (arith, h, c))
    ]

    check_plain-slot :
        (p : ℕ) (s s' : CodeState)
        → check_plain tags count code p s ≡ some s'
        → slot_ok (byte code p) (u32 code (p + 8)) ≡ true
          × (take_slot (u32 code (p + 8)) s ≡ some s')
    unfolding check_plain
    check_plain-slot p s s' h = elim (Option-cases (take_slot (u32 code (p + 8)) s)) [
      | inl e ↦ absurd (ground (arith, h, e))
      | inr (t, e) ↦ (ground (arith, h, e), ground (arith, h, e))
    ]

    check_instr-Taken :
        (p : ℕ) (s s' : CodeState)
        → check_instr tags count code p s ≡ some s'
        → Taken (has_state (byte code p)) (u32 code (p + 8)) s s'
    unfolding check_instr
    check_instr-Taken p s s' h = elim (Bool-cases (leb branch_begin_code (byte code p))) [
      | inl c ↦
          let plain : has_state (byte code p) ≡ false = ground arith in
          rw plain (check_branch-slot (byte code p) s s' (ground (arith, h, c)))
      | inr c ↦
          let (fits, t) = check_plain-slot p s s' (ground (arith, h, c)) in
          let same : ltb (u32 code (p + 8)) (2 ^ 31) ≡ has_state (byte code p) =
            ground (arith, fits) in
          subst (λ b. Taken b (u32 code (p + 8)) s s') same
            (take_slot-Taken (u32 code (p + 8)) s s' t)
    ]

    pub check_code-Rises :
        (fuel p : ℕ) (s : CodeState) (ic total : ℕ)
        → check_code tags count code size fuel p s ic ≡ ret total
        → Rises s.have_slot s.previous_slot (records fuel p)
    unfolding records
    check_code-Rises zero p s ic total h = tt
    check_code-Rises (suc fuel) p s ic total h = elim (Bool-cases (ltb p size)) [
      | inr c ↦ rw c tt
      | inl c ↦
          let r = check_code-RoundAt tags count code size fuel p s ic total (ltb→lt _ _ c) h in
          let rest = check_code-Rises fuel (p + instr_size code p) r.s' (ic + 1) total r.rest in
          rw c (taken (has_state (byte code p)) r.s' (check_instr-Taken p s r.s' r.checked) rest)
    ]
      where
        xs : List State
        xs = records fuel (p + instr_size code p)

        taken :
            (stateful : Bool) (s' : CodeState)
            → Taken stateful (u32 code (p + 8)) s s'
            → Rises s'.have_slot s'.previous_slot xs
            → Rises s.have_slot s.previous_slot
                (if stateful then slot_state (u32 code (p + 8)) ∷ xs else xs)
        taken true s' t k =
            (t.2, subst (λ x. Rises true x xs) t.1 (subst (λ x. Rises x s'.previous_slot xs) t.0 k))
        taken false s' t k =
            subst (λ x. Rises s.have_slot x xs) t.1 (subst (λ x. Rises x s'.previous_slot xs) t.0 k)
