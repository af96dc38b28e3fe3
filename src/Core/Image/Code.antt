-- ===== src/Core/Image/Code.antt =====
-- The loop of `rsm_runtime_validate_image` over the instructions of the code section.
use rsmicro.Prelude.{
  ℕ, zero, suc, ◌+◌, ◌-◌, ◌%◌, ◌^◌, ◌==◌, ltb, leb, if◌then◌else◌, Bool, true, not, ◌&&◌, ◌||◌,
  Option, none, some, List, set, get_or,
}
use rsmicro.Core.Words.{Bytes, byte, u32, u32_max}
use rsmicro.Core.Types.{Result, ret, err, bad_image, unsupported_opcode}
use rsmicro.Core.Opcode.{
  opcode, opcode_known, branch_begin_code, branch_lane_begin_code, branch_lane_end_code,
}
use rsmicro.Core.Machine.{Operand, operand_at, instr_size}
use rsmicro.Core.Image.Sections.{has_state}
use rsmicro.Core.Image.Operands.{storage_byte, denoted, validate_operands}

-- The variables of the loop: the depth of branches, for every depth whether a lane is open and how
-- many lanes there were, and the last state slot, if there was one.
pub record CodeState : Type 0 where
  pub depth : ℕ
  pub lane_open : List ℕ
  pub lane_count : List ℕ
  pub previous_slot : ℕ
  pub have_slot : Bool

-- The four branch instructions. The counters of lanes are uint8_t. `none` is BAD_IMAGE.
unfoldable pub check_branch : ℕ → CodeState → Option CodeState
check_branch op s =
    let opened = get_or s.lane_open s.depth 0 in
    let count = get_or s.lane_count s.depth 0 in
    let below = s.depth + 1 in
    if op == branch_begin_code
    then (if ltb 32 below
        then none
        else some (record s {
          depth = below;
          lane_open = set s.lane_open below 0;
          lane_count = set s.lane_count below 0;
        }))
    else if op == branch_lane_begin_code
    then (if s.depth == 0 || not (opened == 0)
        then none
        else some (record s {
          lane_open = set s.lane_open s.depth 1;
          lane_count = set s.lane_count s.depth ((count + 1) % 2 ^ 8);
        }))
    else if op == branch_lane_end_code
    then (if s.depth == 0 || opened == 0
        then none
        else some (record s { lane_open = set s.lane_open s.depth 0 }))
    else if s.depth == 0 || not (opened == 0) || count == 0
    then none
    else some (record s { depth = s.depth - 1 })

-- how many operands an instruction needs
unfoldable pub needed : ℕ → ℕ
needed op =
    if leb op 6 || op == 16 || op == 17 || op == 18 || op == 19 || op == 49
    then 1
    else if leb 32 op && leb op 37
    then 2
    else if op == 48 || op == 54 || op == 55
    then 2
    else 3

-- TON, CTU and CTD have a slot that is not negative as an int32_t, the others have -1.
abbrev pub slot_ok : ℕ → ℕ → Bool
slot_ok op slot = if has_state op then ltb slot (2 ^ 31) else slot == u32_max

-- the slots rise
unfoldable pub take_slot : ℕ → CodeState → Option CodeState
take_slot slot s =
    if ltb slot (2 ^ 31)
    then (if s.have_slot && leb slot s.previous_slot
        then none
        else some (record s { previous_slot = slot; have_slot = true }))
    else some s

module _ (tags : Bytes) (count : ℕ) where
  abbrev pub operand_ok : Operand → Bool
  operand_ok o =
      leb 1 o.kind
      && leb o.kind 2
      && leb 1 o.type
      && leb o.type 5
      && (if o.kind == 1 then ltb o.word count && denoted o tags == o.type else o.member == 0)

  -- the `left` operands from `p` on
  unfoldable pub operands_ok : Bytes → ℕ → ℕ → Bool
  operands_ok code zero p = true
  operands_ok code (suc left) p = operand_ok (operand_at code p) && operands_ok code left (p + 8)

  -- The three conditions on the first operand `a`, before `validate_operands`.
  unfoldable pub first_operand_ok : ℕ → Operand → Bool
  first_operand_ok op a =
      not
        ((leb 1 op && leb op 6) && (not (a.kind == 1) || not (a.type == 1) || not (a.member == 0)))
      && not (
          (leb 16 op && leb op 19)
          && (not (a.kind == 1)
              || not (a.member == 0)
              || (op == 16 && not (a.type == 4))
              || ((op == 17 || op == 18) && not (a.type == 5))
              || (op == 19 && ltb a.type 4)))
      && not
          ((op == 3 || op == 4 || op == 5 || op == 6 || op == 49) && storage_byte tags a.word == 1)

  -- An instruction at `p` that is no branch.
  unfoldable pub check_plain : Bytes → ℕ → CodeState → Option CodeState
  check_plain code p s =
      let op = byte code p in
      let ac = byte code (p + 1) in
      let slot = u32 code (p + 8) in
      let a = operand_at code (p + 12) in
      let b = operand_at code (p + 20) in
      let d = operand_at code (p + 28) in
      if not (ac == needed op) || not (slot_ok op slot) then none else elim (take_slot slot s) [
        | none ↦ none
        | some s' ↦
            if operands_ok code ac (p + 12)
              && first_operand_ok op a
              && validate_operands a b d tags count (opcode op)
            then some s'
            else none
      ]

  -- The instruction at `p`, whose twelve bytes and operands lie within the section.
  unfoldable pub check_instr : Bytes → ℕ → CodeState → Option CodeState
  check_instr code p s =
      let op = byte code p in
      if leb branch_begin_code op
      then (if not (byte code (p + 1) == 0) || not (u32 code (p + 8) == u32_max)
          then none
          else check_branch op s)
      else check_plain code p s

  -- The loop from `p` on, with `ic` instructions so far, up to `size`. The number of instructions is
  -- returned. Each round goes on by 12 bytes or more, so `fuel = size` is enough.
  unfoldable pub check_code : Bytes → ℕ → ℕ → ℕ → CodeState → ℕ → Result ℕ
  check_code code size zero p s ic =
      if ltb p size then err bad_image else if s.depth == 0 then ret ic else err bad_image
  check_code code size (suc fuel) p s ic =
      let next =
        λ (s' : CodeState). check_code code size fuel (p + instr_size code p) s' (ic + 1) in
      if not (ltb p size)
      then (if s.depth == 0 then ret ic else err bad_image)
      else if ltb (size - p) 12
      then err bad_image
      else if not (opcode_known (byte code p))
      then err unsupported_opcode
      else if ltb 3 (byte code (p + 1)) || ltb (size - p) (instr_size code p)
      then err bad_image
      else elim (check_instr code p s) [ none ↦ err bad_image | some s' ↦ next s' ]
