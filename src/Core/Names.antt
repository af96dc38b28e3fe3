-- ===== src/Core/Names.antt =====
-- The version numbers and the name tables of runtime/core/src/rsm_runtime.c.
use Prim.Native.String.{String}
use rsmicro.Prelude.{ℕ, [], ◌∷◌, get_or}

abbrev pub runtime_abi_major : ℕ
runtime_abi_major = 1

abbrev pub runtime_abi_minor : ℕ
runtime_abi_minor = 2

abbrev pub instruction_abi : ℕ
instruction_abi = 2

abbrev pub image_format_major : ℕ
image_format_major = 2

abbrev pub image_format_minor : ℕ
image_format_minor = 0

abbrev pub profile_id : ℕ
profile_id = 1

abbrev pub mode_name : ℕ → String
mode_name m = get_or ("PROGRAM" ∷ "RUN" ∷ "TEST" ∷ "FAULTED" ∷ []) m "UNKNOWN"

abbrev pub type_name : ℕ → String
type_name t = get_or ("UNKNOWN" ∷ "BOOL" ∷ "DINT" ∷ "REAL" ∷ "TIMER" ∷ "COUNTER" ∷ []) t "UNKNOWN"

abbrev pub fault_category_name : ℕ → String
fault_category_name c =
    get_or
      ("NONE" ∷ "IMAGE" ∷ "CONFIGURATION" ∷ "MEMORY" ∷ "EXECUTION" ∷ "NUMERIC" ∷ "TIMER" ∷ "COUNTER"
        ∷ "HAL" ∷ "WATCHDOG" ∷ "INTERNAL" ∷ [])
      c "UNKNOWN"

abbrev pub status_name : ℕ → String
status_name s =
    get_or
      ("OK" ∷ "INVALID_ARGUMENT" ∷ "INVALID_STATE" ∷ "BUFFER_TOO_SMALL" ∷ "OUT_OF_MEMORY"
        ∷ "BAD_IMAGE" ∷ "BAD_CRC" ∷ "UNSUPPORTED_IMAGE_VERSION" ∷ "UNSUPPORTED_PROFILE"
        ∷ "UNSUPPORTED_ABI" ∷ "UNSUPPORTED_OPCODE" ∷ "TYPE_MISMATCH" ∷ "TAG_NOT_FOUND"
        ∷ "MEMBER_NOT_FOUND" ∷ "NOT_WRITABLE" ∷ "FAULTED" ∷ "HAL_ERROR" ∷ "SCAN_OVERRUN"
        ∷ "QUEUE_FULL" ∷ [])
      s "UNKNOWN"
