-- ===== src/Core/Tests/Program.antt =====
-- A small program for the tests: a contact on tag 0, the coil of tag 1, a timer and a counter.
use rsmicro.Prelude.{ℕ, ◌+◌, ◌*◌, ◌/◌, ◌%◌, ◌^◌, ◌==◌, not, false, true, List, [], ◌∷◌, ◌++◌, none}
use rsmicro.Prelude.Int.{pos, pos_part}
use rsmicro.Core.Words.{Bytes}
use rsmicro.Core.Types.{
  boolean, Timer, Counter, Payload, Tag, Force, State, Diagnostics, FaultCategory, Fault, Impl,
  Mode, Live, Floats, Hal,
}

-- an instruction with no operand, and its operands
abbrev pub head : ℕ → ℕ → ℕ → ℕ → Bytes
head op ac iid slot =
    op
    ∷ ac
    ∷ 0
    ∷ 0
    ∷ iid
    ∷ 0
    ∷ 0
    ∷ 0
    ∷ slot
    ∷ (slot / 255 * 255)
    ∷ (slot / 255 * 255)
    ∷ (slot / 255 * 255)
    ∷ []

abbrev pub tag_bytes : ℕ → ℕ → Bytes
tag_bytes type id = 1 ∷ type ∷ 0 ∷ 0 ∷ id ∷ 0 ∷ 0 ∷ 0 ∷ []

-- XIC 0; OTE 1 | XIC 0; TON 2 | XIC 0; CTU 3
abbrev pub program : Bytes
program =
    head 1 1 0 255
    ++ tag_bytes 1 0
    ++ head 3 1 1 255
    ++ tag_bytes 1 1
    ++ head 1 1 2 255
    ++ tag_bytes 1 0
    ++ head 16 1 3 0
    ++ tag_bytes 4 2
    ++ head 1 1 4 255
    ++ tag_bytes 1 0
    ++ head 17 1 5 1
    ++ tag_bytes 5 3

-- three rungs of two instructions
abbrev pub rung_table : Bytes
rung_table =
    0 ∷ 0 ∷ 0 ∷ 0 ∷ 0 ∷ 0 ∷ 0 ∷ 0 ∷ 2 ∷ 0 ∷ 0 ∷ 0 ∷ 0 ∷ 0 ∷ 0 ∷ 0 ∷ 2 ∷ 0 ∷ 0 ∷ 0 ∷ 2 ∷ 0 ∷ 0 ∷ 0
    ∷ 0 ∷ 0 ∷ 0 ∷ 0 ∷ 4 ∷ 0 ∷ 0 ∷ 0 ∷ 2 ∷ 0 ∷ 0 ∷ 0 ∷ []

abbrev pub timer : Timer
timer = record { pre = pos 2; acc = pos 0; en = false; tt' = false; dn = false }

abbrev pub counter : Counter
counter = record {
  pre = pos 2;
  acc = pos 0;
  cu = false;
  cd = false;
  dn = false;
  ov = false;
  un = false;
}

abbrev pub tags : List Tag
tags =
    record { storage = 1; retentive = 0; v = Payload.b 1 }
    ∷ record { storage = 2; retentive = 0; v = Payload.b 0 }
    ∷ record { storage = 0; retentive = 0; v = Payload.timer timer }
    ∷ record { storage = 0; retentive = 0; v = Payload.counter counter }
    ∷ []

-- a record of the tag section: its type, its storage, and the rest
abbrev pub tag_record : ℕ → ℕ → Bytes
tag_record type storage =
    type ∷ storage ∷ 0 ∷ 0 ∷ 0 ∷ 0 ∷ 0 ∷ 0 ∷ 0 ∷ 0 ∷ 0 ∷ 0 ∷ 0 ∷ 0 ∷ 0 ∷ 0 ∷ 0 ∷ 0 ∷ 0 ∷ 0 ∷ []

-- the tag section of the small program
abbrev pub tag_section : Bytes
tag_section = 4 ∷ 0 ∷ 0 ∷ 0 ∷ tag_record 1 1 ++ tag_record 1 2 ++ tag_record 4 0 ++ tag_record 5 0

abbrev pub unforced : Force
unforced = record { enabled = false; value = boolean 0 }

abbrev pub fresh_state : ℕ → State
fresh_state n = record { slot = n; edge = false; valid = false; time = 0 }

abbrev pub fresh_diagnostics : Diagnostics
fresh_diagnostics = record {
  scan_count = 0;
  last_scan_start_us = 0;
  last_scan_duration_us = 0;
  average_scan_duration_us = 0;
  max_scan_duration_us = 0;
  overrun_count = 0;
  fault_count = 0;
  active_force_count = 0;
  tag_count = 4;
  instruction_count = 6;
  state_slot_count = 2;
  last_instruction_id = 0;
}

abbrev pub no_fault : Fault
no_fault = record {
  category = FaultCategory.none;
  code = 0;
  scan_number = 0;
  timestamp_us = 0;
  routine_id = 0;
  rung_id = 0;
  instruction_id = 0;
  tag_id = 0;
  opcode = 0;
  major = 0;
  message_id = none;
}

abbrev pub loaded : Impl
loaded = record {
  image = [];
  code = program;
  code_size = 120;
  rungs = 3;
  rung_data = rung_table;
  tag = tags;
  force = unforced ∷ unforced ∷ unforced ∷ unforced ∷ [];
  state = fresh_state 0 ∷ fresh_state 1 ∷ [];
  rung_power = 0 ∷ 0 ∷ 0 ∷ [];
  diag = fresh_diagnostics;
  fault = no_fault;
  trace = [];
}

-- a clock that moves on by 1500 microseconds whenever it is read
abbrev pub clock : ℕ → ℕ × ℕ
clock t = (t, t + 1500)

abbrev pub live : Live ℕ
live = record { m = loaded; mode = Mode.run; context = 1000 }

-- Operations on bit patterns; the program of the tests has no REAL.
abbrev pub floats : Floats
floats = record {
  of_dint = pos_part;
  to_dint = pos;
  widen = λ x. x;
  double_of_dint = pos_part;
  narrow = λ x. x;
  is_finite = λ x. not (x / 2 ^ 23 % 2 ^ 8 == 255);
  lt = λ x y. false;
  le = λ x y. true;
  eq = λ x y. x == y;
  add = λ x y. x;
  sub = λ x y. x;
  mul = λ x y. x;
  div = λ x y. x;
  neg = λ x. x;
  fabs = λ x. x;
  eq_double = λ x y. x == y;
  lt_double = λ x y. false;
  le_double = λ x y. true;
}

abbrev pub hal : Hal ℕ
hal = record {
  now = clock;
  read_input = none;
  write_output = none;
  kick_watchdog = none;
  stack_word = 0;
}
