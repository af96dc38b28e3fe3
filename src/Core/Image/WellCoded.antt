-- ===== src/Core/Image/WellCoded.antt =====
-- What the checks of the code section promise to the interpreter.
use rsmicro.Prelude.{
  ℕ, zero, suc, ◌+◌, ◌≡◌, ◌≢◌, ◌≤◌, ◌<◌, ◌⊎◌, inl, inr, ltb, ltb→lt, sym, subst, true, some, arith,
  Option-cases, Bool-cases,
}
use rsmicro.Core.Words.{Bytes, byte}
use rsmicro.Core.Types.{ret}
use rsmicro.Core.Opcode.{opcode_known}
use rsmicro.Core.Machine.{instr_size}
use rsmicro.Core.Boundary.{Boundary, start, after, IsWellCoded}
use rsmicro.Core.Image.Code.{CodeState, check_instr, check_code}

module _ (tags : Bytes) (count : ℕ) (code : Bytes) (size : ℕ) where
  -- What the round at `p` has found.
  pub record RoundAt (fuel p : ℕ) (s : CodeState) (ic total : ℕ) : Type 0 where
    pub s' : CodeState
    pub checked : check_instr tags count code p s ≡ some s'
    pub known : opcode_known (byte code p) ≡ true
    pub fits : p + instr_size code p ≤ size
    pub rest : check_code tags count code size fuel (p + instr_size code p) s' (ic + 1) ≡ ret total

  pub check_code-RoundAt :
      (fuel p : ℕ) (s : CodeState) (ic total : ℕ)
      → p < size
      → check_code tags count code size (suc fuel) p s ic ≡ ret total
      → RoundAt fuel p s ic total
  unfolding check_code
  check_code-RoundAt fuel p s ic total l h = elim (Option-cases (check_instr tags count code p s)) [
    | inl e ↦ absurd (ground (arith, h, e))
    | inr (s', e) ↦ record {
      s' = s';
      checked = e;
      known = ground (arith, h, e);
      fits = ground (arith, h, e);
      rest = ground (arith, h, e);
    }
  ]

  -- Where an instruction begins, the loop has come by, or the section is over.
  CameBy : ℕ → Type 0
  CameBy p =
      (fuel : ℕ) × (s : CodeState) × (ic : ℕ) × (total : ℕ) × (check_code tags count code size fuel
          p s ic
        ≡ ret total)

  code_over :
      (p : ℕ) (s : CodeState) (ic total : ℕ)
      → p < size
      → check_code tags count code size zero p s ic ≢ ret total
  unfolding check_code
  code_over p s ic total l h = ground (arith, h)

  round_of :
      (p : ℕ)
      → p < size
      → CameBy p
      → (fuel : ℕ) × (s : CodeState) × (ic : ℕ) × (total : ℕ) × RoundAt fuel p s ic total
  unfolding CameBy
  round_of p l (zero, s, ic, total, h) = absurd (code_over p s ic total l h)
  round_of p l (suc fuel, s, ic, total, h) =
      (fuel, s, ic, total, check_code-RoundAt fuel p s ic total l h)

  visited_next : (o p : ℕ) → p ≡ o + instr_size code o → o < size → CameBy o → CameBy p
  unfolding CameBy
  visited_next o p e l v =
      let (fuel, s, ic, total, r) = round_of o l v in
      subst CameBy (sym e) (fuel, r.s', ic + 1, total, r.rest)

  known_at : (o : ℕ) → o < size → CameBy o → byte code o ≢ 0
  unfolding opcode_known
  known_at o l v = let (fuel, s, ic, total, r) = round_of o l v in ground (arith, r.known)

  bare_instr :
      (o : ℕ) (s s' : CodeState)
      → check_instr tags count code o s ≡ some s'
      → 240 ≤ byte code o
      → byte code (o + 1) ≡ 0
  unfolding check_instr
  bare_instr o s s' h k = ground (arith, h)

  bare_at : (o : ℕ) → o < size → CameBy o → 240 ≤ byte code o → byte code (o + 1) ≡ 0
  bare_at o l v k = let (fuel, s, ic, total, r) = round_of o l v in bare_instr o s r.s' r.checked k

  module _ (total : ℕ) (s : CodeState)
      (h : check_code tags count code size size 0 s 0 ≡ ret total) where
    Boundary-CameBy : (p : ℕ) → Boundary code p → (size ≤ p) ⊎ CameBy p
    unfolding CameBy
    Boundary-CameBy p (start) = inr (size, s, 0, total, h)
    Boundary-CameBy p (after {o = o} b e) = elim (Boundary-CameBy o b) [
      | inl l ↦ inl (omega arith)
      | inr v ↦ elim (Bool-cases (ltb o size)) [
        | inl c ↦ inr (visited_next o p e (ltb→lt _ _ c) v)
        | inr c ↦ inl (ground arith)
      ]
    ]

    visited_at : (o : ℕ) → Boundary code o → o < size → CameBy o
    visited_at o b l = elim (Boundary-CameBy o b) [ inl k ↦ absurd (omega arith) | inr v ↦ v ]

    -- When the loop over the instructions accepts the code section, no instruction in it has opcode 0,
    -- and its branch instructions have no operands.
    pub check_code-IsWellCoded : IsWellCoded code size
    check_code-IsWellCoded = record {
      known = λ o b l. known_at o l (visited_at o b l);
      bare = λ o b l k. bare_at o l (visited_at o b l) k;
    }
