-- ===== src/Core/Run.antt =====
-- `run_until`: the interpreter over the code bytes, with its parallel branches.
use rsmicro.Prelude.{
  ℕ, zero, suc, ◌+◌, ◌==◌, ltb, leb, if◌then◌else◌, Bool, false, not, ◌&&◌, ◌||◌, Option, none,
  some,
}
use rsmicro.Core.Words.{byte, u32_max}
use rsmicro.Core.Types.{Status, ok, faulted, bad_image, FaultCategory, Live, Floats}
use rsmicro.Core.Machine.{fail, decode, instr_size}
use rsmicro.Core.Execute.{execute}
use rsmicro.Core.Opcode.{
  branch_begin_code, branch_lane_begin_code, branch_lane_end_code, branch_end_code,
}

-- Where a run stands: `*offset`, `*power` and the runtime.
pub record Point (W : Type 0) : Type 0 where
  pub offset : ℕ
  pub power : Bool
  pub live : Live W

-- How it ends: with the status that is returned. `none` is a run that needs more fuel.
abbrev pub Ran : Type 0 → Type 0
Ran W = Option (Status × Point W)

module _ {W : Type 0} where
  infixl 5 ◌>>=◌
  abbrev pub ◌>>=◌ : Ran W → (Status × Point W → Ran W) → Ran W
  none >>= k = none
  some r >>= k = k r

  -- `*offset < m->code_size`, and the byte there
  abbrev pub inside : Point W → Bool
  inside p = ltb p.offset p.live.m.code_size

  abbrev pub code_at : Point W → ℕ
  code_at p = byte p.live.m.code p.offset

  -- `*offset += n`
  abbrev pub forward : ℕ → Point W → Point W
  forward n p = record p { offset = p.offset + n }

  -- what follows a part that ran to its end
  abbrev pub continue : (Point W → Ran W) → Status × Point W → Ran W
  continue go (st, p) = elim st [ ok ↦ go p | _ ↦ some (faulted, p) ]

-- after the last instruction: only a lane has an end to look for
abbrev pub at_end : ℕ → Status
at_end stop = if stop == 0 then ok else bad_image

module _ {W : Type 0} (now : W → ℕ × W) where
  -- the fault "BRANCH" of an instruction whose opcode is `op`
  unfoldable pub branch_fault : ℕ → Point W → Status × Point W
  branch_fault op p = (
    faulted,
    record p { live = fail now p.live FaultCategory.execution 20 "BRANCH" u32_max op u32_max },
  )

  -- after the lanes: BRANCH_END must follow, and there must have been a lane
  unfoldable pub close_branch : ℕ → Bool → Point W → Status × Point W
  close_branch lanes merged p =
      if lanes == 0 || not (inside p) || not (code_at p == branch_end_code)
      then branch_fault branch_begin_code p
      else (ok, record p { offset = p.offset + 12; power = merged })

  -- after a lane: BRANCH_LANE_END must follow; the power outside is still `input`
  unfoldable pub close_lane : Bool → (Point W → Ran W) → Status × Point W → Ran W
  close_lane input rest (st, q) = elim st [
    | ok ↦
        if not (inside q) || not (code_at q == branch_lane_end_code)
        then some (branch_fault branch_begin_code (record q { power = input }))
        else rest q
    | _ ↦ some (faulted, record q { power = input })
  ]

module _ {W : Type 0} (now : W → ℕ × W) (fl : Floats) where
  -- one instruction that is no branch
  unfoldable pub run_one : ℕ → Point W → Status × Point W
  run_one tick p =
      let r = execute now fl (decode p.live.m.code p.offset) p.power tick p.live in
      elim r.status [
        | ok ↦ (
          ok,
          record {
            offset = p.offset + instr_size p.live.m.code p.offset;
            power = r.power;
            live = r.live;
          },
        )
        | _ ↦ (faulted, record p { power = r.power; live = r.live })
      ]

  -- Each instruction, each branch and each lane spends one unit of fuel.
  unfoldable mutual
    pub run_until : ℕ → ℕ → ℕ → Point W → Ran W
    run_until zero tick stop p = none
    run_until (suc fuel) tick stop p =
        let go = run_until fuel tick stop in
        let branch =
          run_lanes fuel tick p.power false 0 (forward (instr_size p.live.m.code p.offset) p)
          >>= continue go in
        let one = continue go (run_one tick p) in
        if not (inside p)
        then some (at_end stop, p)
        else if code_at p == stop
        then some (ok, p)
        else if code_at p == branch_begin_code
        then branch
        else if leb branch_lane_begin_code (code_at p) && leb (code_at p) branch_end_code
        then some (branch_fault now (code_at p) p)
        else one

    -- The lanes of a branch from the next one on, with the power `input` before the branch.
    pub run_lanes : ℕ → ℕ → Bool → Bool → ℕ → Point W → Ran W
    run_lanes zero tick input merged lanes p = none
    run_lanes (suc fuel) tick input merged lanes p =
        let rest = λ (q : Point W).
          run_lanes fuel tick input (merged || q.power) (lanes + 1) (forward 12 q) in
        let lane =
          run_until fuel tick branch_lane_end_code
            (record p { offset = p.offset + 12; power = input })
          >>= close_lane now input rest in
        if inside p && code_at p == branch_lane_begin_code
        then lane
        else some (close_branch now lanes merged (record p { power = input }))
