-- ===== src/Conformance/Fixture.antt =====
-- runtime/generated/rsm_conformance_fixtures.h: the shape of a fixture.
use Prim.Native.String.{String}
use rsmicro.Prelude.{ℕ, zero, suc, ◌/◌, ◌%◌, List, [], ◌∷◌, ◌++◌}
use rsmicro.Prelude.Int.{ℤ}
use rsmicro.Core.Words.{Bytes}
use rsmicro.Core.Types.{Value}

-- `rsm_conformance_assertion_t`
pub record Assertion : Type 0 where
  pub tag : ℕ
  pub member : ℕ
  pub value : Value

-- `rsm_conformance_force_assertion_t`
pub record ForceAssertion : Type 0 where
  pub tag : ℕ
  pub forced : ℕ
  pub logical : Value
  pub effective : Value

-- `rsm_conformance_instruction_state_assertion_t`
pub record StateAssertion : Type 0 where
  pub slot : ℕ
  pub edge : ℕ
  pub valid : ℕ
  pub time_us : ℕ

-- `rsm_conformance_rung_power_assertion_t`
pub record PowerAssertion : Type 0 where
  pub rung : ℕ
  pub power : ℕ

-- `rsm_conformance_write_assertion_t`
pub record WriteAssertion : Type 0 where
  pub tag : ℕ
  pub value : Value

-- `rsm_conformance_step_t`; the counts are the lengths of the lists.
pub record FixtureStep : Type 0 where
  pub operation : ℕ
  pub time_us : ℕ
  pub tag : ℕ
  pub value : Value
  pub expected_status : ℕ
  pub expected_mode : ℤ
  pub expected_scan_count : ℕ
  pub expected_fault_category : ℤ
  pub expected_fault_code : ℕ
  pub expected_output_writes : ℤ
  pub assertions : List Assertion
  pub forces : List ForceAssertion
  pub instruction_states : List StateAssertion
  pub rung_powers : List PowerAssertion
  pub write_trace_declared : ℕ
  pub writes : List WriteAssertion

-- `rsm_conformance_fixture_t`
pub record Fixture : Type 0 where
  pub id : String
  pub instruction : String
  pub image : Bytes
  pub steps : List FixtureStep

-- The bytes of an image, thirty-two to a number, the last byte of a number first.
abbrev pub row : ℕ → ℕ → Bytes
row zero n = []
row (suc k) n = n % 256 ∷ row k (n / 256)

abbrev pub rows : List ℕ → Bytes
rows [] = []
rows (n ∷ ns) = row 32 n ++ rows ns

-- The records by position, as the fixtures write them.
abbrev pub assertion : ℕ → ℕ → Value → Assertion
assertion t m v = record { tag = t; member = m; value = v }

abbrev pub force : ℕ → ℕ → Value → Value → ForceAssertion
force t f l e = record { tag = t; forced = f; logical = l; effective = e }

abbrev pub state : ℕ → ℕ → ℕ → ℕ → StateAssertion
state s e v t = record { slot = s; edge = e; valid = v; time_us = t }

abbrev pub rung_power : ℕ → ℕ → PowerAssertion
rung_power r p = record { rung = r; power = p }

abbrev pub write : ℕ → Value → WriteAssertion
write t v = record { tag = t; value = v }

abbrev pub step :
    ℕ
    → ℕ
    → ℕ
    → Value
    → ℕ
    → ℤ
    → ℕ
    → ℤ
    → ℕ
    → ℤ
    → List Assertion
    → List ForceAssertion
    → List StateAssertion
    → List PowerAssertion
    → ℕ
    → List WriteAssertion
    → FixtureStep
step operation time tag value status mode count category code writes vs fs ss ps declared ws =
    record {
      operation = operation;
      time_us = time;
      tag = tag;
      value = value;
      expected_status = status;
      expected_mode = mode;
      expected_scan_count = count;
      expected_fault_category = category;
      expected_fault_code = code;
      expected_output_writes = writes;
      assertions = vs;
      forces = fs;
      instruction_states = ss;
      rung_powers = ps;
      write_trace_declared = declared;
      writes = ws;
    }
