-- ===== src/Ports/TestHal.antt =====
-- runtime/ports/native_test/src/rsm_test_hal.c and rsm_test_hal.h.
mod Tests
use rsmicro.Prelude.{
  ℕ, zero, suc, ◌∷◌, [], Bool-cases, inl, inr, ◌+◌, ◌%◌, ◌^◌, ◌<◌, ◌≡◌, ◌≢◌, refl, leb,
  if◌then◌else◌, Bool, true, false, not, ◌||◌, List, Option, none, some, get_or, set, replicate,
  length, arith,
}
use rsmicro.Core.Words.{u64_mod}
use rsmicro.Core.Types.{
  Status, ok, invalid_argument, hal_error, Result, ret, err, Value, other, Hal,
}

-- RSM_TEST_ENDPOINTS
abbrev pub endpoints : ℕ
endpoints = 64

-- `rsm_test_hal_t`; the arrays have `endpoints` entries.
pub record TestHal : Type 0 where
  pub time_us : ℕ
  pub reads : ℕ
  pub writes : ℕ
  pub kicks : ℕ
  pub inputs : List Value
  pub outputs : List Value
  pub input_valid : List Bool
  pub output_valid : List Bool
  pub fail_read : Bool
  pub fail_write : Bool
  pub fail_watchdog : Bool

-- a zeroed value
abbrev pub no_value : Value
no_value = other 0 0

unfoldable pub tm : TestHal → ℕ × TestHal
tm h = (h.time_us, h)

unfoldable pub rd : TestHal → ℕ → Value → Status × Value × TestHal
rd h i v =
    let h' = record h { reads = (h.reads + 1) % u64_mod } in
    if h.fail_read || leb endpoints i
    then (hal_error, v, h')
    else if get_or h.input_valid i false
    then (ok, get_or h.inputs i no_value, h')
    else (ok, v, h')

unfoldable pub wr : TestHal → ℕ → Value → Status × TestHal
wr h i v =
    let h' = record h { writes = (h.writes + 1) % u64_mod } in
    if h.fail_write || leb endpoints i
    then (hal_error, h')
    else (ok, record h' { outputs = set h.outputs i v; output_valid = set h.output_valid i true })

unfoldable pub kick : TestHal → Status × TestHal
kick h = (if h.fail_watchdog then hal_error else ok, record h { kicks = (h.kicks + 1) % u64_mod })

-- The HAL that `rsm_test_hal_init` fills in. What an uninitialised value holds is `word`.
abbrev pub test_hal : ℕ → Hal TestHal
test_hal word = record {
  now = tm;
  read_input = some rd;
  write_output = some wr;
  kick_watchdog = some kick;
  stack_word = word;
}

unfoldable pub init : TestHal
init = record {
  time_us = 0;
  reads = 0;
  writes = 0;
  kicks = 0;
  inputs = replicate endpoints no_value;
  outputs = replicate endpoints no_value;
  input_valid = replicate endpoints false;
  output_valid = replicate endpoints false;
  fail_read = false;
  fail_write = false;
  fail_watchdog = false;
}

unfoldable pub set_time_us : TestHal → ℕ → TestHal
set_time_us h t = record h { time_us = t }

unfoldable pub advance_time_us : TestHal → ℕ → TestHal
advance_time_us h d = record h { time_us = (h.time_us + d) % u64_mod }

unfoldable pub set_input : TestHal → ℕ → Value → Status × TestHal
set_input h i v =
    if leb endpoints i
    then (invalid_argument, h)
    else (ok, record h { inputs = set h.inputs i v; input_valid = set h.input_valid i true })

unfoldable pub get_output : TestHal → ℕ → Result Value
get_output h i =
    if leb endpoints i || not (get_or h.output_valid i false)
    then err invalid_argument
    else ret (get_or h.outputs i no_value)

-- The arrays have their sizes.
pub record IsSized (h : TestHal) : Type 0 where
  pub inputs : length h.inputs ≡ endpoints
  pub input_valid : length h.input_valid ≡ endpoints
  pub outputs : length h.outputs ≡ endpoints
  pub output_valid : length h.output_valid ≡ endpoints

get_or-set {ℓ} :
    {A : Type ℓ} (xs : List A) (i : ℕ) (v d : A) → i < length xs → get_or (set xs i v) i d ≡ v
get_or-set [] i v d h = absurd (omega arith)
get_or-set (x ∷ xs) zero v d h = refl
get_or-set (x ∷ xs) (suc i) v d h = get_or-set xs i v d (omega arith)

set_input_roundtrip :
    (h : TestHal) (i : ℕ) (v old : Value)
    → IsSized h
    → (set_input h i v).0 ≡ ok
    → h.fail_read ≡ false
    → ((rd (set_input h i v).1 i old).0 ≡ ok) × ((rd (set_input h i v).1 i old).1 ≡ v)
unfolding set_input rd
set_input_roundtrip h i v old z e f = elim (Bool-cases (leb endpoints i)) [
  | inl c ↦ absurd (ground (arith, e, c))
  | inr c ↦
      let valid = get_or-set h.input_valid i true false (ground (arith, c, z.input_valid)) in
      let read = get_or-set h.inputs i v no_value (ground (arith, c, z.inputs)) in
      rw (c, f, valid, read) (refl, refl)
]

wr_roundtrip :
    (h : TestHal) (i : ℕ) (v : Value)
    → IsSized h
    → (wr h i v).0 ≡ ok
    → get_output (wr h i v).1 i ≡ ret v
unfolding wr get_output
wr_roundtrip h i v z e = elim (Bool-cases (leb endpoints i)) [
  | inl c ↦ absurd (ground (arith, e, c))
  | inr c ↦
      let works : h.fail_write ≡ false = ground (arith, e, c) in
      let valid = get_or-set h.output_valid i true false (ground (arith, c, z.output_valid)) in
      let shown = get_or-set h.outputs i v no_value (ground (arith, c, z.outputs)) in
      rw (works, c, valid, shown) refl
]

-- On a HAL whose arrays have their sizes, an input that was set is what the next read of that endpoint
-- returns if reads do not fail, and a value that was written is the output of that endpoint.
pub endpoints_roundtrip :
    (h : TestHal) (i : ℕ) (v old : Value)
    → IsSized h
    → ((set_input h i v).0 ≡ ok
        → h.fail_read ≡ false
        → ((rd (set_input h i v).1 i old).0 ≡ ok) × ((rd (set_input h i v).1 i old).1 ≡ v))
      × ((wr h i v).0 ≡ ok → get_output (wr h i v).1 i ≡ ret v)
endpoints_roundtrip h i v old z = (set_input_roundtrip h i v old z, wr_roundtrip h i v z)
