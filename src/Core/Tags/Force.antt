-- ===== src/Core/Tags/Force.antt =====
-- `rsm_runtime_force_tag`, `rsm_runtime_clear_force` and `rsm_runtime_clear_all_forces`, on the
-- state of a loaded runtime.
use rsmicro.Prelude.{
  ℕ, ◌+◌, ◌-◌, ◌%◌, ◌^◌, ◌==◌, ltb, if◌then◌else◌, true, false, not, ◌||◌, map, none, some,
  get_elem?, set,
}
use rsmicro.Core.Types.{
  Status, ok, type_mismatch, tag_not_found, Value, boolean, type_of, as_boolean, tag_type, Force,
  Diagnostics, Impl,
}
use rsmicro.Core.Tags.{truth}

-- The stored copy of a forced value: a BOOL is normalised.
abbrev pub normalised : Value → Value
normalised v = if type_of v == 1 then boolean (truth (as_boolean v)) else v

-- `active_force_count++` and `--` on a uint32_t
abbrev pub count_up : Diagnostics → Diagnostics
count_up g = record g { active_force_count = (g.active_force_count + 1) % 2 ^ 32 }

abbrev pub count_down : Diagnostics → Diagnostics
count_down g = record g { active_force_count = (g.active_force_count + 2 ^ 32 - 1) % 2 ^ 32 }

-- The table has an entry for each tag, so the inner `none` is not met.
unfoldable pub force_tag : Impl → ℕ → Value → Status × Impl
force_tag m id v = elim (get_elem? m.tag id) [
  | none ↦ (tag_not_found, m)
  | some t ↦
      if not (type_of v == tag_type t) || ltb 3 (tag_type t)
      then (type_mismatch, m)
      else elim (get_elem? m.force id) [
        | none ↦ (tag_not_found, m)
        | some e ↦ (
          ok,
          record m {
            force = set m.force id (record { enabled = true; value = normalised v });
            diag = if e.enabled then m.diag else count_up m.diag;
          },
        )
      ]
]

unfoldable pub clear_force : Impl → ℕ → Status × Impl
clear_force m id = elim (get_elem? m.tag id) [
  | none ↦ (tag_not_found, m)
  | some t ↦ elim (get_elem? m.force id) [
    | none ↦ (tag_not_found, m)
    | some e ↦
        if e.enabled
        then (
          ok,
          record m {
            force = set m.force id (record e { enabled = false });
            diag = count_down m.diag;
          },
        )
        else (ok, m)
  ]
]

abbrev pub released : Force → Force
released e = record e { enabled = false }

unfoldable pub clear_all_forces : Impl → Status × Impl
clear_all_forces m = (
  ok,
  record m { force = map released m.force; diag = record (m.diag) { active_force_count = 0 } },
)
