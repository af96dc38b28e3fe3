-- ===== src/Core/Tags/Access.antt =====
-- The public access functions of rsm_runtime.h on tags, forces and the write trace: each checks
-- that an image is loaded, and hands on to the store. (A null pointer argument is refused by each
-- of them with INVALID_ARGUMENT before anything else; the model's arguments are never null.)
use rsmicro.Prelude.{ℕ, ltb, if◌then◌else◌, List, [], none, some, length}
use rsmicro.Core.Types.{
  Status, ok, invalid_state, buffer_too_small, Result, ret, err, Value, TraceEntry, Impl, Runtime,
  Diagnostics, Fault,
}
use rsmicro.Core.Tags.{value, put, read_member}
use rsmicro.Core.Tags.Force.{force_tag, clear_force, clear_all_forces}

module _ {W : Type 0} where
  -- An operation on the loaded program's state, or INVALID_STATE when nothing is loaded.
  abbrev pub on_loaded : Runtime W → (Impl → Status × Impl) → Status × Runtime W
  on_loaded r op = elim r.impl [
    | none ↦ (invalid_state, r)
    | some m ↦ ((op m).0, record r { impl = some (op m).1 })
  ]

  abbrev pub of_loaded {ℓ} : {A : Type ℓ} → Runtime W → (Impl → Result A) → Result A
  of_loaded r read = elim r.impl [ none ↦ err invalid_state | some m ↦ read m ]

  unfoldable pub runtime_read_tag : Runtime W → ℕ → Result Value
  runtime_read_tag r id = of_loaded r (λ m. value m id)

  unfoldable pub runtime_write_tag : Runtime W → ℕ → Value → Status × Runtime W
  runtime_write_tag r id v = on_loaded r (λ m. put m id v)

  unfoldable pub runtime_read_member : Runtime W → ℕ → ℕ → Result Value
  runtime_read_member r id member = of_loaded r (λ m. read_member m id member)

  unfoldable pub runtime_force_tag : Runtime W → ℕ → Value → Status × Runtime W
  runtime_force_tag r id v = on_loaded r (λ m. force_tag m id v)

  unfoldable pub runtime_clear_force : Runtime W → ℕ → Status × Runtime W
  runtime_clear_force r id = on_loaded r (λ m. clear_force m id)

  unfoldable pub runtime_clear_all_forces : Runtime W → Status × Runtime W
  runtime_clear_all_forces r = on_loaded r clear_all_forces

  unfoldable pub runtime_clear_write_trace : Runtime W → Status × Runtime W
  runtime_clear_write_trace r = on_loaded r (λ m. (ok, record m { trace = [] }))

  -- The status, what goes through `count`, and the entries that are copied to `out`.
  unfoldable pub runtime_get_write_trace : Runtime W → ℕ → Status × ℕ × List TraceEntry
  runtime_get_write_trace r capacity = elim r.impl [
    | none ↦ (invalid_state, 0, [])
    | some m ↦
        if ltb capacity (length m.trace)
        then (buffer_too_small, length m.trace, [])
        else (ok, length m.trace, m.trace)
  ]

  unfoldable pub runtime_get_diagnostics : Runtime W → Result Diagnostics
  runtime_get_diagnostics r = of_loaded r (λ m. ret m.diag)

  -- The null pointer of a runtime with nothing loaded is the error.
  unfoldable pub runtime_last_fault : Runtime W → Result Fault
  runtime_last_fault r = of_loaded r (λ m. ret m.fault)
