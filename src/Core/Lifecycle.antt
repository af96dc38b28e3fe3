-- ===== src/Core/Lifecycle.antt =====
-- Prescan, postscan and the mode changes (`lifecycle_outputs` to `rsm_runtime_get_mode`), and
-- `rsm_runtime_init`, `rsm_runtime_deinit` and `rsm_runtime_unload_program`.
use rsmicro.Prelude.{
  ℕ, zero, suc, ◌+◌, ◌==◌, ltb, if◌then◌else◌, Bool, true, false, not, ◌&&◌, map, Option, none,
  some,
}
use rsmicro.Prelude.Int.{pos}
use rsmicro.Core.Words.{byte}
use rsmicro.Core.Types.{
  Status, ok, invalid_argument, invalid_state, not_writable, Mode, boolean, Payload, Tag, State,
  Impl, Runtime,
}
use rsmicro.Core.Machine.{operand_at, destination, instr_size}

-- The first two loops of `lifecycle_outputs`.
abbrev pub initial_state : Bool → State → State
initial_state prescan st = record st { valid = false; edge = prescan }

abbrev pub initial_payload : Payload → Payload
initial_payload (Payload.timer t) =
    Payload.timer (record t { acc = pos 0; en = false; tt' = false; dn = false })
initial_payload (Payload.counter c) = Payload.counter (record c { cu = false; cd = false })
initial_payload (Payload.b x) = Payload.b x
initial_payload (Payload.d x) = Payload.d x
initial_payload (Payload.f x) = Payload.f x

abbrev pub initial_tag : Tag → Tag
initial_tag t = record t { v = initial_payload t.v }

-- What the third loop writes for the instruction at `o`: 0 to the destination of an OTE, and in a
-- prescan 1 to the storage of an ONS.
unfoldable pub output_write : Bool → ℕ → Impl → Status × Impl
output_write prescan o m =
    if byte m.code o == 3
    then destination m (operand_at m.code (o + 12)) (boolean 0)
    else if prescan && byte m.code o == 6
    then destination m (operand_at m.code (o + 12)) (boolean 1)
    else (ok, m)

-- The third loop, from offset `o` on. Each round goes on by 12 bytes or more, so
-- `fuel = code_size` is enough.
unfoldable pub write_outputs : ℕ → Bool → ℕ → Impl → Status × Impl
write_outputs zero prescan o m = (ok, m)
write_outputs (suc fuel) prescan o m =
    let r = output_write prescan o m in
    let rest = write_outputs fuel prescan (o + instr_size m.code o) r.1 in
    if ltb o m.code_size then elim r.0 [ ok ↦ rest | _ ↦ (not_writable, r.1) ] else (ok, m)

unfoldable pub lifecycle_outputs : Bool → Impl → Status × Impl
lifecycle_outputs prescan m =
    write_outputs m.code_size prescan 0
      (record m { state = map (initial_state prescan) m.state; tag = map initial_tag m.tag })

-- The mode of a code; a code above RSM_MODE_FAULTED is none.
abbrev pub mode_of : ℕ → Option Mode
mode_of n =
    if n == 0
    then some Mode.program
    else if n == 1
    then some Mode.run
    else if n == 2
    then some Mode.test
    else if n == 3
    then some Mode.faulted
    else none

-- RUN or TEST
abbrev pub is_active : Mode → Bool
is_active Mode.run = true
is_active Mode.test = true
is_active _ = false

abbrev pub is_program : Mode → Bool
is_program Mode.program = true
is_program _ = false

abbrev pub is_faulted : Mode → Bool
is_faulted Mode.faulted = true
is_faulted _ = false

module _ {W : Type 0} where
  abbrev pub run_lifecycle : Bool → Runtime W → Status × Runtime W
  run_lifecycle pre r = elim r.impl [
    | none ↦ (invalid_state, r)
    | some m ↦ let (st, m') = lifecycle_outputs pre m in (st, record r { impl = some m' })
  ]

  -- `rsm_runtime_prescan` and `rsm_runtime_postscan`
  unfoldable pub prescan : Runtime W → Status × Runtime W
  prescan r = run_lifecycle true r

  unfoldable pub postscan : Runtime W → Status × Runtime W
  postscan r = run_lifecycle false r

  abbrev pub is_loaded : Runtime W → Bool
  is_loaded r = elim r.impl [ none ↦ false | some _ ↦ true ]

  -- The last assignment, unless the lifecycle pass before it failed.
  abbrev pub enter : Mode → Status × Runtime W → Status × Runtime W
  enter mode (st, r) = elim st [ ok ↦ (ok, record r { mode = mode }) | other ↦ (other, r) ]

  -- `rsm_runtime_set_mode` at a mode that exists
  unfoldable pub change_mode : Runtime W → Mode → Status × Runtime W
  change_mode r mode =
      if is_active mode && not (is_loaded r)
      then (invalid_state, r)
      else if is_faulted r.mode && not (is_program mode)
      then (invalid_state, r)
      else if is_active mode && is_program r.mode
      then enter mode (prescan r)
      else if is_program mode && is_active r.mode
      then enter mode (postscan r)
      else (ok, record r { mode = mode })

  unfoldable pub set_mode : Runtime W → ℕ → Status × Runtime W
  set_mode r code = elim (mode_of code) [
    | none ↦ (invalid_argument, r)
    | some mode ↦ change_mode r mode
  ]

  unfoldable pub get_mode : Runtime W → Mode
  get_mode r = r.mode

  -- `rsm_runtime_init` for an arena and a HAL whose clock is there
  unfoldable pub init : ℕ → ℕ → W → Runtime W
  init arena size context = record {
    impl = none;
    arena = arena;
    arena_size = size;
    mode = Mode.program;
    context = context;
  }

  unfoldable pub deinit : Runtime W → Runtime W
  deinit r = record r { impl = none; mode = Mode.program }

  unfoldable pub unload_program : Runtime W → Status × Runtime W
  unload_program r =
      if is_program r.mode then (ok, record r { impl = none }) else (invalid_state, r)
