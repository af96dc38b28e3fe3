-- ===== src/Core/Tags/Forces.antt =====
-- The force overlay: its count, and what a forced tag reads.
use rsmicro.Prelude.{
  ℕ, zero, suc, ◌+◌, ◌≤◌, ◌<◌, ◌^◌, ◌%◌, ◌≡◌, ◌==◌, refl, if◌then◌else◌, true, false, replicate,
  List, [], ◌∷◌, map, some, arith, sym, ◌∙◌, length, get_elem?, set, length-set, length-map,
  Option-cases, inl, inr,
}
use rsmicro.Core.Types.{ok, ret, Value, Force, Impl}
use rsmicro.Core.Tags.{value}
use rsmicro.Core.Tags.Force.{force_tag, clear_force, clear_all_forces, normalised, released}
use rsmicro.Core.Tags.Writes.{get_elem?-set}

abbrev pub enabled_count : List Force → ℕ
enabled_count [] = 0
enabled_count (e ∷ es) = (if e.enabled then 1 else 0) + enabled_count es

-- The table has a force for each tag, fewer than 2 ^ 32, and `active_force_count` counts those that
-- are enabled.
pub record IsCounted (m : Impl) : Type 0 where
  pub table : length m.force ≡ length m.tag
  pub small : length m.tag < 2 ^ 32
  pub count : m.diag.active_force_count ≡ enabled_count m.force

enabled_count-le : (es : List Force) → enabled_count es ≤ length es
enabled_count-le [] = omega arith
enabled_count-le (e ∷ es) = ground (arith, enabled_count-le es)

enabled_count-set :
    (es : List Force) (i : ℕ) (old new : Force)
    → get_elem? es i ≡ some old
    → enabled_count (set es i new) + (if old.enabled then 1 else 0)
      ≡ enabled_count es + (if new.enabled then 1 else 0)
enabled_count-set [] i old new h = cc
enabled_count-set (e ∷ es) zero old new h = ground arith
enabled_count-set (e ∷ es) (suc i) old new h = ground (arith, enabled_count-set es i old new h)

enabled_count-released : (es : List Force) → enabled_count (map released es) ≡ 0
enabled_count-released [] = refl
enabled_count-released (e ∷ es) = omega (arith, enabled_count-released es)

-- Forcing a tag keeps `active_force_count` the number of enabled forces.
pub force_tag-IsCounted :
    (m : Impl) (id : ℕ) (v : Value) → IsCounted m → IsCounted (force_tag m id v).1
unfolding force_tag
force_tag-IsCounted m id v h = elim (Option-cases (get_elem? m.force id)) [
  | inl e ↦ ground arith
  | inr (old, e) ↦ ground (
    arith,
    enabled_count-set m.force id old (record { enabled = true; value = normalised v }),
    enabled_count-le m.force,
    enabled_count-le (set m.force id (record { enabled = true; value = normalised v })),
    length-set m.force id (record { enabled = true; value = normalised v }),
  )
]

-- So does clearing a force.
pub clear_force-IsCounted : (m : Impl) (id : ℕ) → IsCounted m → IsCounted (clear_force m id).1
unfolding clear_force
clear_force-IsCounted m id h = elim (Option-cases (get_elem? m.force id)) [
  | inl e ↦ ground arith
  | inr (old, e) ↦ ground (
    arith,
    enabled_count-set m.force id old (released old),
    enabled_count-le m.force,
    length-set m.force id (released old),
  )
]

-- And clearing all of them.
pub clear_all_forces-IsCounted : (m : Impl) → IsCounted m → IsCounted (clear_all_forces m).1
unfolding clear_all_forces
clear_all_forces-IsCounted m h = record {
  table = length-map m.force released ∙ h.table;
  small = h.small;
  count = sym (enabled_count-released m.force);
}

-- `active_force_count` is the number of enabled forces, as a uint32_t.
abbrev pub IsTallied : Impl → Type 0
IsTallied m = m.diag.active_force_count ≡ enabled_count m.force % 2 ^ 32

pub enabled_count-replicate :
    (n : ℕ) (e : Force) → e.enabled ≡ false → enabled_count (replicate n e) ≡ 0
enabled_count-replicate zero e h = refl
enabled_count-replicate (suc n) e h = ground (arith, enabled_count-replicate n e h)

pub force_tag-IsTallied :
    (m : Impl) (id : ℕ) (v : Value) → IsTallied m → IsTallied (force_tag m id v).1
unfolding force_tag
force_tag-IsTallied m id v h = elim (Option-cases (get_elem? m.force id)) [
  | inl e ↦ ground (arith, h, e)
  | inr (old, e) ↦ ground (
    arith,
    h,
    e,
    enabled_count-set m.force id old (record { enabled = true; value = normalised v }),
  )
]

pub clear_force-IsTallied : (m : Impl) (id : ℕ) → IsTallied m → IsTallied (clear_force m id).1
unfolding clear_force
clear_force-IsTallied m id h = elim (Option-cases (get_elem? m.force id)) [
  | inl e ↦ ground (arith, h, e)
  | inr (old, e) ↦ ground (arith, h, e, enabled_count-set m.force id old (released old))
]

pub clear_all_forces-IsTallied : (m : Impl) → IsTallied (clear_all_forces m).1
unfolding clear_all_forces
clear_all_forces-IsTallied m = rw (enabled_count-released m.force) refl

-- A tag that was forced reads the forced value, with a BOOL normalised, and any other tag reads as
-- before.
pub value-force_tag :
    (m : Impl) (id j : ℕ) (v : Value)
    → (force_tag m id v).0 ≡ ok
    → value (force_tag m id v).1 j ≡ (if id == j then ret (normalised v) else value m j)
unfolding force_tag value
value-force_tag m id j v h = elim (Option-cases (get_elem? m.force id)) [
  | inl e ↦ ground arith
  | inr (old, e) ↦
      ground
        (arith, h, get_elem?-set m.force id j old (record { enabled = true; value = normalised v }))
]
