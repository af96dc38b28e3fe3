-- ===== src/Core/Image/Room.antt =====
-- An arena of the size that `rsm_runtime_required_memory` reports is enough for the loader.
use rsmicro.Prelude.{ℕ, ◌+◌, ◌≡◌, ◌≤◌, refl, true, some, none, arith, Option-cases, inl, inr}
use rsmicro.Core.Types.{ok, ret, err, bad_image, Runtime}
use rsmicro.Core.Words.{Bytes}
use rsmicro.Core.Lifecycle.{is_program}
use rsmicro.Core.Image.Sections.{size_max, size_add, state_slot_count}
use rsmicro.Core.Image.Layout.{Sizes, size_add-some}
use rsmicro.Core.Image.Validate.{validate_image}
use rsmicro.Core.Image.Valid.{validate_image-Valid, bind_inv}
use rsmicro.Core.Image.Load.{layout_of, has_room, required_memory, load_checked, load_image}

has_room-enough :
    (base size layout : ℕ)
    → layout + 7 ≤ size
    → base + (layout + 7) ≤ size_max
    → has_room base size layout ≡ true
unfolding has_room
has_room-enough base size layout h k = ground arith

total_inv :
    (layout total : ℕ)
    → (elim (size_add layout 7) [ none ↦ err bad_image | some t ↦ ret t ]) ≡ ret total
    → total ≡ layout + 7
total_inv layout total h = elim (Option-cases (size_add layout 7)) [
  | inl e ↦ absurd (ground (arith, h, e))
  | inr (t, e) ↦ ground (arith, h, e, size_add-some layout 7 t e)
]

module _ {W : Type 0} (z : Sizes) (r : Runtime W) (x : Bytes) (n : ℕ) where
  -- When `rsm_runtime_required_memory` returns OK with a size, a load of the same image in PROGRAM into
  -- an arena of at least that size returns OK, wherever the arena begins, if its first bytes of that
  -- size lie within the address space.
  pub load_image-enough :
      (total : ℕ)
      → required_memory z x n ≡ ret total
      → is_program r.mode ≡ true
      → total ≤ r.arena_size
      → r.arena + total ≤ size_max
      → (load_image z r x n).0 ≡ ok
  unfolding load_image load_checked required_memory
  load_image-enough total h p s a =
      let (info, e₁, h₁) = bind_inv (validate_image x n) _ total h in
      let (states, e₂, h₂) = bind_inv (state_slot_count x n) _ total h₁ in
      let (layout, e₃, h₃) = bind_inv (layout_of z info states) _ total h₂ in
      let sum = total_inv layout total h₃ in
      let room = has_room-enough r.arena r.arena_size layout (omega arith) (omega arith) in
      let v = validate_image-Valid x n info e₁ in
      rw (p, e₁, e₂, e₃, room, v.tags_at, v.code_at, v.rungs_at) refl
