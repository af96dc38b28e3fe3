-- ===== src/Core/Types.antt =====
-- The data of the runtime core: runtime/core/include/rsmicro/*.h and the private structs at the
-- top of runtime/core/src/rsm_runtime.c.
use Prim.Native.String.{String}
use rsmicro.Prelude.{ℕ, ◌%◌, ◌^◌, ◌≡◌, ◌≢◌, refl, List, Bool, Option}
use rsmicro.Prelude.Int.{ℤ}
use rsmicro.Core.Words.{Bytes, signed32, unsigned32}

-- `rsm_status_t`
pub data Status : Type 0 where
  ok invalid_argument invalid_state buffer_too_small out_of_memory bad_image bad_crc : Status
  unsupported_image_version unsupported_profile unsupported_abi unsupported_opcode : Status
  type_mismatch tag_not_found member_not_found not_writable faulted hal_error : Status
  scan_overrun queue_full : Status

-- A property of both ways on from a status holds of what is done.
pub status_ind {ℓ κ} :
    {A : Type ℓ} (P : A → Type κ) (st : Status) (x y : A)
    → (st ≡ ok → P x)
    → (st ≢ ok → P y)
    → P (elim st [ ok ↦ x | _ ↦ y ])
status_ind P ok x y h k = h refl
status_ind P _ x y h k = k (λ e. cc)

-- `rsm_mode_t`
pub data Mode : Type 0 where
  program run test faulted : Mode

-- A result, or the status that the C function returns in its place.
pub data Result {ℓ} (A : Type ℓ) : Type ℓ where
  ret : A → Result A
  err : Status → Result A

-- `rsm_value_t`: a type code and a 32-bit union. The union's member is the one that the type code
-- selects; `other` is a value of a type code beyond the scalars, with the bits of its union.
pub data Value : Type 0 where
  boolean : ℕ → Value
  dint : ℤ → Value
  real : ℕ → Value
  other : ℕ → ℕ → Value

-- `v.type`: RSM_TYPE_BOOL is 1, DINT 2, REAL 3, TIMER 4 and COUNTER 5.
abbrev pub type_of : Value → ℕ
type_of (boolean _) = 1
type_of (dint _) = 2
type_of (real _) = 3
type_of (other t _) = t

-- Reads of the union's members; a float is its 32-bit pattern, memory is little-endian.
abbrev pub as_boolean : Value → ℕ
as_boolean (boolean b) = b
as_boolean (dint d) = unsigned32 d % 2 ^ 8
as_boolean (real f) = f % 2 ^ 8
as_boolean (other _ w) = w % 2 ^ 8

abbrev pub as_dint : Value → ℤ
as_dint (boolean b) = signed32 b
as_dint (dint d) = d
as_dint (real f) = signed32 f
as_dint (other _ w) = signed32 w

abbrev pub as_real : Value → ℕ
as_real (boolean b) = b
as_real (dint d) = unsigned32 d
as_real (real f) = f
as_real (other _ w) = w

-- `rsm_timer_t` and `rsm_counter_t`
pub record Timer : Type 0 where
  pub pre : ℤ
  pub acc : ℤ
  pub en : Bool
  pub tt' : Bool
  pub dn : Bool

pub record Counter : Type 0 where
  pub pre : ℤ
  pub acc : ℤ
  pub cu : Bool
  pub cd : Bool
  pub dn : Bool
  pub ov : Bool
  pub un : Bool

-- The union of `tag_t`, with the tag's `type`, which is set once, by the loader.
pub data Payload : Type 0 where
  b : ℕ → Payload
  d : ℤ → Payload
  f : ℕ → Payload
  timer : Timer → Payload
  counter : Counter → Payload

-- `tag_t`. Storage 1 is an input and 2 an output.
pub record Tag : Type 0 where
  pub storage : ℕ
  pub retentive : ℕ
  pub v : Payload

abbrev pub payload_type : Payload → ℕ
payload_type (b _) = 1
payload_type (d _) = 2
payload_type (f _) = 3
payload_type (timer _) = 4
payload_type (counter _) = 5

-- `tag_t.type`
abbrev pub tag_type : Tag → ℕ
tag_type t = payload_type t.v

-- `force_t`
pub record Force : Type 0 where
  pub enabled : Bool
  pub value : Value

-- `state_t`: the memory of one TON, CTU or CTD.
pub record State : Type 0 where
  pub slot : ℕ
  pub edge : Bool
  pub valid : Bool
  pub time : ℕ

-- `rsm_runtime_diagnostics_t`
pub record Diagnostics : Type 0 where
  pub scan_count : ℕ
  pub last_scan_start_us : ℕ
  pub last_scan_duration_us : ℕ
  pub average_scan_duration_us : ℕ
  pub max_scan_duration_us : ℕ
  pub overrun_count : ℕ
  pub fault_count : ℕ
  pub active_force_count : ℕ
  pub tag_count : ℕ
  pub instruction_count : ℕ
  pub state_slot_count : ℕ
  pub last_instruction_id : ℕ

-- `rsm_fault_category_t`
pub data FaultCategory : Type 0 where
  none image configuration memory execution numeric timer counter hal watchdog internal :
      FaultCategory

-- `rsm_fault_t`; the null `message_id` of a fresh runtime is `none`.
pub record Fault : Type 0 where
  pub category : FaultCategory
  pub code : ℕ
  pub scan_number : ℕ
  pub timestamp_us : ℕ
  pub routine_id : ℕ
  pub rung_id : ℕ
  pub instruction_id : ℕ
  pub tag_id : ℕ
  pub opcode : ℕ
  pub major : ℕ
  pub message_id : Option String

-- `rsm_runtime_write_trace_entry_t`
pub record TraceEntry : Type 0 where
  pub tag : ℕ
  pub value : Value

-- `impl_t`. `tags`, `states` and `trace_count` are the lengths of `tag`, `state` and `trace`;
-- `code` and `rung_data` are the bytes of the image from those pointers on.
pub record Impl : Type 0 where
  pub image : Bytes
  pub code : Bytes
  pub code_size : ℕ
  pub rungs : ℕ
  pub rung_data : Bytes
  pub tag : List Tag
  pub force : List Force
  pub state : List State
  pub rung_power : List ℕ
  pub diag : Diagnostics
  pub fault : Fault
  pub trace : List TraceEntry

-- RSM_RUNTIME_WRITE_TRACE_CAPACITY
abbrev pub trace_capacity : ℕ
trace_capacity = 64

-- `rsm_hal_t` over its context `W`: a callback takes the context and returns the new one. The
-- optional callbacks may be null. `stack_word` is what an uninitialised 32-bit union holds.
pub record Hal (W : Type 0) : Type 0 where
  pub now : W → ℕ × W
  pub read_input : Option (W → ℕ → Value → Status × Value × W)
  pub write_output : Option (W → ℕ → Value → Status × W)
  pub kick_watchdog : Option (W → Status × W)
  pub stack_word : ℕ

-- `rsm_runtime_t`; `impl` is null until an image is loaded.
pub record Runtime (W : Type 0) : Type 0 where
  pub impl : Option Impl
  pub arena : ℕ
  pub arena_size : ℕ
  pub mode : Mode
  pub context : W

-- What the code behind a loaded runtime works on: `*r->impl`, `r->mode` and the HAL's context.
pub record Live (W : Type 0) : Type 0 where
  pub m : Impl
  pub mode : Mode
  pub context : W

-- The binary32 and binary64 operations that C supplies, on bit patterns.
pub record Floats : Type 0 where
  -- `(float)i`, `(int32_t)x` in range, `(double)x`, `(double)i` and `(float)q`
  pub of_dint : ℤ → ℕ
  pub to_dint : ℕ → ℤ
  pub widen : ℕ → ℕ
  pub double_of_dint : ℤ → ℕ
  pub narrow : ℕ → ℕ
  -- on float: `isfinite`, `<`, `<=`, `==`, `+`, `-`, `*`, `/`, unary `-`, `fabsf`
  pub is_finite : ℕ → Bool
  pub lt : ℕ → ℕ → Bool
  pub le : ℕ → ℕ → Bool
  pub eq : ℕ → ℕ → Bool
  pub add : ℕ → ℕ → ℕ
  pub sub : ℕ → ℕ → ℕ
  pub mul : ℕ → ℕ → ℕ
  pub div : ℕ → ℕ → ℕ
  pub neg : ℕ → ℕ
  pub fabs : ℕ → ℕ
  -- on double: `==`, `<`, `<=`
  pub eq_double : ℕ → ℕ → Bool
  pub lt_double : ℕ → ℕ → Bool
  pub le_double : ℕ → ℕ → Bool
