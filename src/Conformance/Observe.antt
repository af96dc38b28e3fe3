-- ===== src/Conformance/Observe.antt =====
-- What is asserted after a step of a fixture, after runtime/core/tests/test_conformance.c. Its arrays
-- of 512 entries are lists here, and a second runtime beside the first is left out.
use rsmicro.Prelude.{
  ℕ, ◌+◌, ◌-◌, ◌^◌, ◌==◌, if◌then◌else◌, Bool, true, false, not, ◌&&◌, ◌||◌, List, [], ◌∷◌, ◌++◌,
  none, some,
}
use rsmicro.Core.Types.{
  Status, ok, Mode, Result, ret, err, Value, boolean, dint, real, TraceEntry, trace_capacity, Hal,
  Runtime, FaultCategory, Fault, Diagnostics,
}
use rsmicro.Core.Words.{u32_max}
use rsmicro.Conformance.Fixture.{
  Assertion, ForceAssertion, StateAssertion, PowerAssertion, WriteAssertion, FixtureStep,
}
use rsmicro.Prelude.Int.{ℤ, pos, negsuc}
use rsmicro.Core.Tags.Access.{
  runtime_read_tag, runtime_read_member, runtime_get_write_trace, runtime_get_diagnostics,
  runtime_last_fault,
}
use rsmicro.Core.Snapshot.{Writer, snapshot}

-- The fixture's clock and the count of output writes.
pub record World : Type 0 where
  pub time : ℕ
  pub output_writes : ℕ

abbrev pub fixture_hal : Hal World
fixture_hal = record {
  now = λ w. (w.time, w);
  read_input = none;
  write_output = some (λ w e v. (ok, record w { output_writes = w.output_writes + 1 }));
  kick_watchdog = none;
  stack_word = 0;
}

-- `(int)status`, and the numbers of the modes and the categories
abbrev pub status_code : Status → ℕ
status_code st = elim st [
  | Status.ok ↦ 0
  | Status.invalid_argument ↦ 1
  | Status.invalid_state ↦ 2
  | Status.buffer_too_small ↦ 3
  | Status.out_of_memory ↦ 4
  | Status.bad_image ↦ 5
  | Status.bad_crc ↦ 6
  | Status.unsupported_image_version ↦ 7
  | Status.unsupported_profile ↦ 8
  | Status.unsupported_abi ↦ 9
  | Status.unsupported_opcode ↦ 10
  | Status.type_mismatch ↦ 11
  | Status.tag_not_found ↦ 12
  | Status.member_not_found ↦ 13
  | Status.not_writable ↦ 14
  | Status.faulted ↦ 15
  | Status.hal_error ↦ 16
  | Status.scan_overrun ↦ 17
  | Status.queue_full ↦ 18
]

abbrev pub mode_code : Mode → ℕ
mode_code Mode.program = 0
mode_code Mode.run = 1
mode_code Mode.test = 2
mode_code Mode.faulted = 3

abbrev pub category_code : FaultCategory → ℕ
category_code FaultCategory.none = 0
category_code FaultCategory.image = 1
category_code FaultCategory.configuration = 2
category_code FaultCategory.memory = 3
category_code FaultCategory.execution = 4
category_code FaultCategory.numeric = 5
category_code FaultCategory.timer = 6
category_code FaultCategory.counter = 7
category_code FaultCategory.hal = 8
category_code FaultCategory.watchdog = 9
category_code FaultCategory.internal = 10

abbrev pub is_ok : Status → Bool
is_ok ok = true
is_ok _ = false

abbrev pub same_int : ℤ → ℤ → Bool
same_int (pos a) (pos b) = a == b
same_int (negsuc a) (negsuc b) = a == b
same_int _ _ = false

-- An expectation that is not declared is negative.
abbrev pub expects : ℤ → ℕ → Bool
expects (pos n) x = x == n
expects (negsuc _) x = true

abbrev pub same_value : Value → Value → Bool
same_value (boolean a) (boolean b) = a == b
same_value (dint a) (dint b) = same_int a b
same_value (real a) (real b) = a == b
same_value _ _ = false

abbrev pub same_result : Result Value → Value → Bool
same_result (ret v) w = same_value v w
same_result (err _) w = false

abbrev pub all {ℓ} : {A : Type ℓ} → (A → Bool) → List A → Bool
all p [] = true
all p (x ∷ xs) = p x && all p xs

-- the first entry that passes the test is as the other test asks
abbrev pub first_is {ℓ} : {A : Type ℓ} → (A → Bool) → (A → Bool) → List A → Bool
first_is p q [] = false
first_is p q (x ∷ xs) = if p x then q x else first_is p q xs

abbrev pub assert_values : Runtime World → FixtureStep → Bool
assert_values r s =
    all
      (λ (a : Assertion).
        same_result
          (if a.member == 0 then runtime_read_tag r a.tag else runtime_read_member r a.tag a.member)
          a.value)
      s.assertions

-- `observed_t`, with the number of calls of `snapshot_value` and `snapshot_member`.
pub record Observed : Type 0 where
  pub forces : List ForceAssertion
  pub states : List StateAssertion
  pub rungs : List PowerAssertion
  pub calls : ℕ

abbrev pub nothing : Observed
nothing = record { forces = []; states = []; rungs = []; calls = 0 }

abbrev pub observer : Writer Observed
observer = record {
  value = λ c i logical effective forced. (
    ok,
    record c {
      forces =
          c.forces
          ++ record {
            tag = i;
            forced = if forced then 1 else 0;
            logical = logical;
            effective = effective;
          }
            ∷ [];
      calls = c.calls + 1;
    },
  );
  member = some (λ c i member v. (ok, record c { calls = c.calls + 1 }));
  state = some (λ c mode diag fault slot edge valid time. if slot == u32_max then (ok, c) else (
    ok,
    record c {
      states = c.states ++ record { slot = slot; edge = edge; valid = valid; time_us = time } ∷ [];
    },
  ));
  rung_power = some (λ c rung power.
      (ok, record c { rungs = c.rungs ++ record { rung = rung; power = power } ∷ [] }));
}

abbrev pub assert_state : Observed → FixtureStep → Bool
assert_state o s =
    all
      (λ (a : ForceAssertion).
        first_is (λ (x : ForceAssertion). x.tag == a.tag)
          (λ (x : ForceAssertion).
            x.forced == a.forced
            && same_value x.logical a.logical
            && same_value x.effective a.effective)
          o.forces)
      s.forces
    && all
        (λ (a : StateAssertion).
          first_is (λ (x : StateAssertion). x.slot == a.slot)
            (λ (x : StateAssertion).
              x.edge == a.edge && x.valid == a.valid && x.time_us == a.time_us)
            o.states)
        s.instruction_states
    && all
        (λ (a : PowerAssertion).
          first_is (λ (x : PowerAssertion). x.rung == a.rung)
            (λ (x : PowerAssertion). x.power == a.power) o.rungs)
        s.rung_powers

abbrev pub same_writes : List TraceEntry → List WriteAssertion → Bool
same_writes [] [] = true
same_writes (x ∷ xs) (y ∷ ys) = x.tag == y.tag && same_value x.value y.value && same_writes xs ys
same_writes _ _ = false

abbrev pub assert_trace : Runtime World → FixtureStep → Bool
assert_trace r s =
    if s.write_trace_declared == 0
    then true
    else let (st, _, entries) = runtime_get_write_trace r trace_capacity in
      is_ok st && same_writes entries s.writes

abbrev pub same_fault : Result Fault → FixtureStep → Bool
same_fault (err _) s = elim s.expected_fault_category [ pos _ ↦ false | negsuc _ ↦ true ]
same_fault (ret q) s = elim s.expected_fault_category [
  | pos n ↦ category_code q.category == n && q.code == s.expected_fault_code
  | negsuc _ ↦ true
]

abbrev pub same_count : Result Diagnostics → ℕ → Bool
same_count (err _) n = false
same_count (ret d) n = n == 2 ^ 64 - 1 || d.scan_count == n

abbrev pub observe_active : Runtime World → FixtureStep → Bool
observe_active r s =
    let (st, o) = snapshot observer r nothing in
    is_ok st
    && assert_state o s
    && same_count (runtime_get_diagnostics r) s.expected_scan_count
    && same_fault (runtime_last_fault r) s
    && not (o.calls == 0)
