-- ===== src/Core/Machine.antt =====
-- What the instructions share: decoding, operand reads, destination writes, the state slots of the
-- timers and counters, and the fault exit (`operand` to `destination` of rsm_runtime.c).
use Prim.Native.String.{String}
use rsmicro.Prelude.{
  ℕ, zero, suc, ◌+◌, ◌-◌, ◌*◌, ◌/◌, ◌%◌, ◌^◌, ◌==◌, ltb, if◌then◌else◌, Bool, false, not, ◌||◌,
  List, Option, none, some, length, get_elem?, set,
}
use rsmicro.Core.Words.{Bytes, byte, u32, signed32, u32_max}
use rsmicro.Core.Types.{
  Status, ok, faulted, not_writable, type_mismatch, Mode, Result, ret, err, Value, boolean, dint,
  real, type_of, as_dint, as_real, State, Impl, Live, Floats, FaultCategory, Tag, Payload,
}
use rsmicro.Core.Tags.{truth, value, put, read_member}

-- The eight bytes of an operand: kind 1 is a tag and 2 a literal; the word at offset 4 is the
-- tag's number or the literal's bits.
pub record Operand : Type 0 where
  pub kind : ℕ
  pub type : ℕ
  pub member : ℕ
  pub word : ℕ

unfoldable pub operand_at : Bytes → ℕ → Operand
operand_at code p = record {
  kind = byte code p;
  type = byte code (p + 1);
  member = byte code (p + 2);
  word = u32 code (p + 4);
}

-- An instruction as `execute` reads it at `p`, with its operands `a`, `b` and `d`.
pub record Instr : Type 0 where
  pub op : ℕ
  pub ac : ℕ
  pub iid : ℕ
  pub slot : ℕ
  pub a : Operand
  pub b : Operand
  pub d : Operand

unfoldable pub decode : Bytes → ℕ → Instr
decode code p = record {
  op = byte code p;
  ac = byte code (p + 1);
  iid = u32 code (p + 4);
  slot = u32 code (p + 8);
  a = operand_at code (p + 12);
  b = operand_at code (p + 20);
  d = operand_at code (p + 28);
}

-- `12u + (size_t)p[1] * 8u`
abbrev pub instr_size : Bytes → ℕ → ℕ
instr_size code p = 12 + byte code (p + 1) * 8

abbrev pub literal : Operand → Result Value
literal o =
    if o.type == 1
    then ret (boolean (truth o.word))
    else if o.type == 2
    then ret (dint (signed32 o.word))
    else if o.type == 3
    then ret (real o.word)
    else err type_mismatch

unfoldable pub operand : Impl → Operand → Result Value
operand m o =
    if o.kind == 1
    then (if o.member == 0 then value m o.word else read_member m o.word o.member)
    else literal o

abbrev pub numeric : Value → Bool
numeric v = type_of v == 2 || type_of v == 3

-- `(float)number(v)` and `number(v)`, a double
abbrev pub number : Floats → Value → ℕ
number fl v = if type_of v == 2 then fl.double_of_dint (as_dint v) else fl.widen (as_real v)

unfoldable pub destination : Impl → Operand → Value → Status × Impl
destination m o v =
    if not (o.kind == 1) || not (o.member == 0) then (not_writable, m) else put m o.word v

-- `m->state[middle].slot < slot`
abbrev pub slot_below : Option State → ℕ → Bool
slot_below none slot = false
slot_below (some s) slot = ltb s.slot slot

-- The binary search of `state_for_slot`: `fuel` rounds at most.
unfoldable pub lower_bound : ℕ → List State → ℕ → ℕ → ℕ → ℕ
lower_bound zero states slot low high = low
lower_bound (suc fuel) states slot low high =
    let middle = low + (high - low) / 2 in
    let below = slot_below (get_elem? states middle) slot in
    let rest =
      lower_bound fuel states slot (if below then middle + 1 else low)
        (if below then high else middle) in
    if ltb low high then rest else low

-- The index of the record of a slot. `slot < 0` in the source is a pattern from 2 ^ 31 on.
unfoldable pub state_for_slot : List State → ℕ → Option (ℕ × State)
state_for_slot states slot =
    let low = lower_bound (length states) states slot 0 (length states) in
    elim (get_elem? states low) [
      | none ↦ none
      | some s ↦ if s.slot == slot then some (low, s) else none
    ]

module _ {W : Type 0} (now : W → ℕ × W) where
  -- `fail`: the state that it leaves; it returns FAULTED.
  unfoldable pub fail : Live W → FaultCategory → ℕ → String → ℕ → ℕ → ℕ → Live W
  fail s category code message iid op tag =
      let (t, context) = now s.context in
      record {
        m = record (s.m) {
          fault = record (s.m.fault) {
            category = category;
            code = code;
            scan_number = s.m.diag.scan_count;
            timestamp_us = t;
            instruction_id = iid;
            opcode = op;
            tag_id = tag;
            major = 1;
            message_id = some message;
          };
          diag = record (s.m.diag) { fault_count = (s.m.diag.fault_count + 1) % 2 ^ 64 };
        };
        mode = Mode.faulted;
        context = context;
      }

-- What `execute` leaves: its status, `*power` and the runtime.
pub record Step (W : Type 0) : Type 0 where
  pub status : Status
  pub power : Bool
  pub live : Live W

module _ {W : Type 0} where
  -- the tag of an operand, if it names one in range
  abbrev pub tag_at : Live W → Operand → Option Tag
  tag_at s o = if o.kind == 1 then get_elem? s.m.tag o.word else none

  abbrev pub set_payload : Live W → ℕ → Tag → Payload → Live W
  set_payload s id t p = record s { m = record (s.m) { tag = set s.m.tag id (record t { v = p }) } }

  abbrev pub set_state : Live W → ℕ → State → Live W
  set_state s i st = record s { m = record (s.m) { state = set s.m.state i st } }

  -- The state record of an instruction's slot; a negative slot has none.
  abbrev pub state_at : Live W → Instr → Option (ℕ × State)
  state_at s i = if ltb i.slot (2 ^ 31) then state_for_slot s.m.state i.slot else none

  -- the common end of an instruction that ran
  abbrev pub finish : Instr → Bool → Live W → Step W
  finish i power s = record {
    status = ok;
    power = power;
    live = record s {
      m = record (s.m) { diag = record (s.m.diag) { last_instruction_id = i.iid } };
    };
  }

  -- an early `return RSM_STATUS_OK`
  abbrev pub skip : Bool → Live W → Step W
  skip power s = record { status = ok; power = power; live = s }

  module _ (now : W → ℕ × W) (i : Instr) (power : Bool) where
    -- the exit through `fail`, which leaves the power as it is
    unfoldable pub refuse : Live W → FaultCategory → ℕ → String → ℕ → Step W
    refuse s category code message tag = record {
      status = faulted;
      power = power;
      live = fail now s category code message i.iid i.op tag;
    }

    -- The end of an instruction after a write: the power `out`, or a fault.
    unfoldable pub settle : Live W → ℕ → ℕ → String → Bool → Status × Impl → Step W
    settle s tag code message out (ok, m) = finish i out (record s { m = m })
    settle s tag code message out (_, m) =
        refuse (record s { m = m }) FaultCategory.execution code message tag

    -- A write through `destination`, and the end of the instruction.
    unfoldable pub commit : Live W → Operand → Value → ℕ → String → Bool → Step W
    commit s o v code message out = settle s o.word code message out (destination s.m o v)

    -- `NEED(N)`
    unfoldable pub arity_fault : Live W → Step W
    arity_fault s = refuse s FaultCategory.execution 2 "ARITY" u32_max
