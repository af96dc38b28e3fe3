-- ===== src/Core/Image/Load.antt =====
-- `rsm_runtime_required_memory` and `rsm_runtime_load_image`.
use rsmicro.Prelude.{
  ℕ, zero, suc, ◌+◌, ◌-◌, ◌*◌, ◌%◌, ◌==◌, ltb, if◌then◌else◌, Bool, false, not, ◌||◌, none, some,
  [], ◌∷◌, List, drop, set, replicate,
}
use rsmicro.Core.Words.{Bytes, byte, u32, i32}
use rsmicro.Core.Types.{
  Status, Result, ret, err, ok, bad_image, invalid_state, buffer_too_small, other, Payload, Tag,
  Force, State, Diagnostics, Fault, FaultCategory, Impl, Runtime,
}
use rsmicro.Core.Tags.{truth}
use rsmicro.Core.Machine.{instr_size}
use rsmicro.Core.Lifecycle.{is_program}
use rsmicro.Core.Image.Sections.{size_max, size_add, has_state, state_slot_count}
use rsmicro.Core.Image.Layout.{Sizes, required_layout}
use rsmicro.Core.Image.Validate.{◌>>=◌, ImageInfo, validate_image, code_section, table_section}

-- the layout, or BAD_IMAGE
unfoldable pub layout_of : Sizes → ImageInfo → ℕ → Result ℕ
layout_of z info states = elim (required_layout z info.tag_count states info.rung_count) [
  | none ↦ err bad_image
  | some layout ↦ ret layout
]

unfoldable pub required_memory : Sizes → Bytes → ℕ → Result ℕ
required_memory z x n = do
  info ← validate_image x n
  states ← state_slot_count x n
  layout ← layout_of z info states
  elim (size_add layout 7) [ none ↦ err bad_image | some total ↦ ret total ]

-- The tests of the arena's room: `base` is the arena's address, and a uintptr_t is a size_t.
unfoldable pub has_room : ℕ → ℕ → ℕ → Bool
has_room base size layout =
    let slack = (8 - base % 8) % 8 in
    not (
      ltb size slack
      || ltb (size - slack) layout
      || ltb (size_max - slack) base
      || ltb (size_max - layout) (base + slack))

abbrev pub blank_state : State
blank_state = record { slot = 0; edge = false; valid = false; time = 0 }

-- The loop that gives the state records their slots, from offset `p` on with `k` of them given. Each
-- round goes on by 12 bytes or more, so `fuel = size` is enough.
unfoldable pub fill_slots : Bytes → ℕ → ℕ → ℕ → ℕ → List State → List State
fill_slots code size zero p k states = states
fill_slots code size (suc fuel) p k states =
    let found = has_state (byte code p) in
    let states' =
      if found
      then set states k (record { slot = u32 code (p + 8); edge = false; valid = false; time = 0 })
      else states in
    let rest =
      fill_slots code size fuel (p + instr_size code p) (if found then k + 1 else k) states' in
    if ltb p size then rest else states

-- The initial value of a tag of type `type`, from the record's bytes at `t`.
unfoldable pub load_payload : Bytes → ℕ → ℕ → Payload
load_payload tags t type =
    if type == 1
    then Payload.b (truth (u32 tags (t + 4)))
    else if type == 2
    then Payload.d (i32 tags (t + 4))
    else if type == 3
    then Payload.f (u32 tags (t + 4))
    else if type == 4
    then Payload.timer (record {
      pre = i32 tags (t + 4);
      acc = i32 tags (t + 8);
      en = false;
      tt' = false;
      dn = false;
    })
    else Payload.counter (record {
      pre = i32 tags (t + 4);
      acc = i32 tags (t + 8);
      cu = false;
      cd = false;
      dn = false;
      ov = false;
      un = false;
    })

abbrev pub load_tag : Bytes → ℕ → Tag
load_tag tags t = record {
  storage = byte tags (t + 1);
  retentive = byte tags (t + 2);
  v = load_payload tags t (byte tags t);
}

-- The `left` tags from number `i` on.
unfoldable pub load_tags : Bytes → ℕ → ℕ → List Tag
load_tags tags zero i = []
load_tags tags (suc left) i = load_tag tags (4 + i * 20) ∷ load_tags tags left (i + 1)

-- a table that is all zero
abbrev pub blank_force : Force
blank_force = record { enabled = false; value = other 0 0 }

abbrev pub blank_fault : Fault
blank_fault = record {
  category = FaultCategory.none;
  code = 0;
  scan_number = 0;
  timestamp_us = 0;
  routine_id = 0;
  rung_id = 0;
  instruction_id = 0;
  tag_id = 0;
  opcode = 0;
  major = 0;
  message_id = none;
}

abbrev pub load_diagnostics : ImageInfo → ℕ → Diagnostics
load_diagnostics info states = record {
  scan_count = 0;
  last_scan_start_us = 0;
  last_scan_duration_us = 0;
  average_scan_duration_us = 0;
  max_scan_duration_us = 0;
  overrun_count = 0;
  fault_count = 0;
  active_force_count = 0;
  tag_count = info.tag_count;
  instruction_count = info.instruction_count;
  state_slot_count = states;
  last_instruction_id = 0;
}

-- What stands at the start of the arena after a load: the tag section `tags`, the code section and
-- the rung section `rungs` of image `x`.
unfoldable pub loaded_impl : Bytes → ImageInfo → ℕ → Bytes → Bytes × ℕ → Bytes → Impl
loaded_impl x info states tags code rungs = record {
  image = x;
  code = code.0;
  code_size = code.1;
  rungs = u32 rungs 0;
  rung_data = drop 4 rungs;
  tag = load_tags tags info.tag_count 0;
  force = replicate info.tag_count blank_force;
  state = fill_slots code.0 code.1 code.1 0 0 (replicate states blank_state);
  rung_power = replicate info.rung_count 0;
  diag = load_diagnostics info states;
  fault = blank_fault;
  trace = [];
}

module _ {W : Type 0} (z : Sizes) where
  -- The checks of the loader on a runtime in PROGRAM, and what is loaded.
  unfoldable pub load_checked : Runtime W → Bytes → ℕ → Result Impl
  load_checked r x n = do
    info ← validate_image x n
    states ← state_slot_count x n
    layout ← layout_of z info states
    if has_room r.arena r.arena_size layout then placed info states else err buffer_too_small
    where
      placed : ImageInfo → ℕ → Result Impl
      placed info states = do
        tags ← table_section x n 15 20
        code ← code_section x n
        rungs ← table_section x n 16 12
        ret (loaded_impl x info states tags code rungs)

  unfoldable pub load_image : Runtime W → Bytes → ℕ → Status × Runtime W
  load_image r x n =
      if not (is_program r.mode)
      then (invalid_state, r)
      else elim (load_checked r x n) [ err st ↦ (st, r) | ret m ↦ (ok, record r { impl = some m }) ]
