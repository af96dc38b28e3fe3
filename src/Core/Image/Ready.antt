-- ===== src/Core/Image/Ready.antt =====
-- What `rsm_runtime_load_image` promises to the rest of the runtime.
use rsmicro.Prelude.{
  if◌then◌else◌, ℕ, zero, suc, ◌+◌, ◌*◌, ◌≡◌, ◌≤◌, ◌<◌, refl, sym, ap, subst, ◌∙◌, Bool, true,
  false, not, if_ind, Option-cases, inl, inr, some, arith, drop, length, get_elem?, replicate,
  length-replicate, [],
}
use rsmicro.Core.Words.{Bytes, byte, u32}
use rsmicro.Core.Types.{
  Status, ok, Result, ret, err, buffer_too_small, Impl, Runtime, Tag, tag_type, payload_type,
}
use rsmicro.Core.Boundary.{IsWellCoded}
use rsmicro.Core.Slots.{Ascending}
use rsmicro.Core.Lifecycle.{is_program}
use rsmicro.Core.Tags.Forces.{IsTallied, enabled_count-replicate}
use rsmicro.Core.ForceTypes.{IsTyped, AllFit-replicate}
use rsmicro.Core.Image.Sections.{sections, state_slot_count, count_slots}
use rsmicro.Core.Image.Layout.{Sizes}
use rsmicro.Core.Image.Operands.{Loaded, type_byte, storage_byte}
use rsmicro.Core.Image.WellCoded.{check_code-IsWellCoded}
use rsmicro.Core.Image.SlotTable.{
  Rises-Ascending, fill_slots-records, count_slots-records, check_code-Rises,
}
use rsmicro.Core.Image.Validate.{
  ImageInfo, validate_image, tags_ok, code_section, table_section, fresh_code_state,
}
use rsmicro.Core.Image.Errors.{load_checked-NotOk}
use rsmicro.Core.Image.Valid.{Valid, validate_image-Valid, bind_inv, ret-injective}
use rsmicro.Core.Image.Load.{
  layout_of, has_room, blank_state, blank_force, load_payload, load_tag, load_tags, loaded_impl,
  load_checked, load_image,
}

load_payload-type :
    (tags : Bytes) (t type : ℕ)
    → 1 ≤ type
    → type ≤ 5
    → payload_type (load_payload tags t type) ≡ type
unfolding load_payload
load_payload-type tags t type h k = ground arith

load_tags-Loaded :
    (tags : Bytes) (left i id : ℕ)
    → tags_ok tags left i ≡ true
    → id < left
    → (t : Tag) × (get_elem? (load_tags tags left i) id ≡ some t)
      × (tag_type t ≡ byte tags (4 + (i + id) * 20))
      × (t.storage ≡ byte tags (5 + (i + id) * 20))
unfolding tags_ok load_tags
load_tags-Loaded tags zero i id h l = absurd (omega arith)
load_tags-Loaded tags (suc left) i zero h l =
    let t = 4 + i * 20 in
    let type = load_payload-type tags t (byte tags t) (ground (arith, h)) (ground (arith, h)) in
    let here : 4 + (i + 0) * 20 ≡ t = omega arith in
    (load_tag tags t, refl, type ∙ ap (byte tags) (sym here), ap (byte tags) (omega arith))
load_tags-Loaded tags (suc left) i (suc id) h l =
    let (t, e, ty, st) = load_tags-Loaded tags left (i + 1) id (ground (arith, h)) (omega arith) in
    (t, e, ty ∙ ap (byte tags) (omega arith), st ∙ ap (byte tags) (omega arith))

-- the tag with a given number
tag_at :
    (tags : Bytes) (count id : ℕ)
    → tags_ok tags count 0 ≡ true
    → id < count
    → (t : Tag) × (get_elem? (load_tags tags count 0) id ≡ some t)
      × (tag_type t ≡ type_byte tags id)
      × (t.storage ≡ storage_byte tags id)
tag_at tags count id h l =
    let (t, e, ty, st) = load_tags-Loaded tags count 0 id h l in
    (t, e, ty ∙ ap (byte tags) (omega arith), st ∙ ap (byte tags) (omega arith))

length-load_tags : (tags : Bytes) (left i : ℕ) → length (load_tags tags left i) ≡ left
unfolding load_tags
length-load_tags tags zero i = refl
length-load_tags tags (suc left) i = ap suc (length-load_tags tags left (i + 1))

-- A program that is ready to run: its code is well coded, the slots of its states rise, and every
-- tag has a force record and every rung a power.
pub record Ready (m : Impl) : Type 0 where
  pub coded : IsWellCoded m.code m.code_size
  pub slots : Ascending m.state
  pub forces : length m.force ≡ length m.tag
  pub powers : length m.rung_power ≡ m.rungs
  pub trace : m.trace ≡ []
  pub typed : IsTyped m
  pub tallied : IsTallied m

-- A program that is the one of an image: as many tags as its tag section has, each with the type and
-- the storage that its record there has, its code section, and its rung section.
pub record FromImage (x : Bytes) (n : ℕ) (m : Impl) : Type 0 where
  pub tags : Bytes
  pub tags_at : table_section x n 15 20 ≡ ret tags
  pub tag_count : length m.tag ≡ u32 tags 0
  pub loaded : Loaded m tags (u32 tags 0)
  pub code_at : code_section x n ≡ ret (m.code, m.code_size)
  pub rungs : Bytes
  pub rungs_at : table_section x n 16 12 ≡ ret rungs
  pub rung_count : m.rungs ≡ u32 rungs 0
  pub rung_data : m.rung_data ≡ drop 4 rungs

state_slot_count-code :
    (x : Bytes) (n states : ℕ) (code : Bytes × ℕ)
    → code_section x n ≡ ret code
    → state_slot_count x n ≡ ret states
    → count_slots code.0 code.1 code.1 0 0 ≡ ret states
unfolding code_section state_slot_count
state_slot_count-code x n states code h k = elim (Option-cases (sections x n 8)) [
  | inl e ↦ absurd (ground (arith, h, e))
  | inr (s, e) ↦
      let same : (drop s.0 x, s.1) ≡ code = ret-injective _ code (ground (arith, h, e)) in
      let counted : count_slots (drop s.0 x) s.1 s.1 0 0 ≡ ret states = ground (arith, k, e) in
      subst (λ (c : Bytes × ℕ). count_slots c.0 c.1 c.1 0 0 ≡ ret states) same counted
]

module _ (x : Bytes) (n : ℕ) (info : ImageInfo) (states : ℕ) (v : Valid x n info) where
  loaded_impl-slots :
      count_slots v.code.0 v.code.1 v.code.1 0 0 ≡ ret states
      → Ascending (loaded_impl x info states v.tags v.code v.rungs).state
  unfolding loaded_impl
  loaded_impl-slots k =
      let counted = count_slots-records v.code.0 v.code.1 v.code.1 0 0 states k in
      let rises =
        check_code-Rises v.code.0 v.code.1 v.tags (u32 v.tags 0) v.code.1 0 fresh_code_state 0
          info.instruction_count v.checked in
      let filled =
        fill_slots-records v.code.0 v.code.1 v.code.1 0 [] (replicate states blank_state)
          (omega (arith, counted, length-replicate states blank_state)) in
      subst Ascending (sym filled) (Rises-Ascending false 0 _ rises)

  loaded_impl-Ready :
      count_slots v.code.0 v.code.1 v.code.1 0 0 ≡ ret states
      → Ready (loaded_impl x info states v.tags v.code v.rungs)
  unfolding loaded_impl
  loaded_impl-Ready k = record {
    coded =
        check_code-IsWellCoded v.tags (u32 v.tags 0) v.code.0 v.code.1 info.instruction_count
          fresh_code_state v.checked;
    slots = loaded_impl-slots k;
    forces =
        length-replicate info.tag_count blank_force
        ∙ sym (length-load_tags v.tags info.tag_count 0);
    powers = length-replicate info.rung_count 0 ∙ v.rung_count;
    trace = refl;
    typed = AllFit-replicate info.tag_count blank_force _ refl;
    tallied = rw (enabled_count-replicate info.tag_count blank_force refl) refl;
  }

  loaded_impl-FromImage : FromImage x n (loaded_impl x info states v.tags v.code v.rungs)
  unfolding loaded_impl
  loaded_impl-FromImage = record {
    tags = v.tags;
    tags_at = v.tags_at;
    tag_count = length-load_tags v.tags info.tag_count 0 ∙ v.tag_count;
    loaded = λ id l.
        tag_at v.tags info.tag_count id
          (subst (λ k. tags_ok v.tags k 0 ≡ true) (sym v.tag_count) v.tags_pass)
          (omega (arith, l, v.tag_count));
    code_at = v.code_at;
    rungs = v.rungs;
    rungs_at = v.rungs_at;
    rung_count = refl;
    rung_data = refl;
  }

room_inv :
    (c : Bool) (o : Result Impl) (m : Impl)
    → (if c then o else err buffer_too_small) ≡ ret m
    → o ≡ ret m
room_inv true o m h = h
room_inv false o m h = cc

module _ {W : Type 0} (z : Sizes) (r : Runtime W) (x : Bytes) (n : ℕ) where
  load_checked-Ready : (m : Impl) → load_checked z r x n ≡ ret m → Ready m × FromImage x n m
  unfolding load_checked
  load_checked-Ready m h =
      let (info, e₁, h₁) = bind_inv (validate_image x n) _ m h in
      let (states, e₂, h₂) = bind_inv (state_slot_count x n) _ m h₁ in
      let (layout, e₃, h₃) = bind_inv (layout_of z info states) _ m h₂ in
      let h₄ = room_inv (has_room r.arena r.arena_size layout) _ m h₃ in
      let (tags, t, h₅) = bind_inv (table_section x n 15 20) _ m h₄ in
      let (code, c, h₆) = bind_inv (code_section x n) _ m h₅ in
      let (rungs, g, h₇) = bind_inv (table_section x n 16 12) _ m h₆ in
      let v = validate_image-Valid x n info e₁ in
      let same_tags = ret-injective v.tags tags (sym v.tags_at ∙ t) in
      let same_code = ret-injective v.code code (sym v.code_at ∙ c) in
      let same_rungs = ret-injective v.rungs rungs (sym v.rungs_at ∙ g) in
      let here = ret-injective (loaded_impl x info states tags code rungs) m h₇ in
      let placed : loaded_impl x info states v.tags v.code v.rungs ≡ m = cc in
      subst (λ p. Ready p × FromImage x n p) placed
        (
          loaded_impl-Ready x n info states v
              (state_slot_count-code x n states v.code v.code_at e₂),
          loaded_impl-FromImage x n info states v,
        )

  -- What a load leaves behind: after OK the image's program, ready to run, in PROGRAM, and after
  -- anything else the runtime as it was.
  abbrev pub Loads : Status × Runtime W → Type 0
  Loads (ok, r') =
      (m : Impl) × (r'.impl ≡ some m)
      × Ready m
      × (r'.mode ≡ r.mode)
      × (is_program r.mode ≡ true)
      × FromImage x n m
  Loads (_, r') = r' ≡ r

  -- A load that returns OK was made in PROGRAM, and leaves a program with no opcode 0 and no
  -- operands of branch instructions, whose state slots rise strictly, which has as many tags as the
  -- tag section of the image, each with the type and storage of its record there, the code section
  -- and the rung section of the image, a force record for every tag, a power for every
  -- rung, an empty write trace, no enabled force of another type than its tag, and the right count of
  -- enabled forces. A load that returns anything else leaves the runtime as it was.
  pub load_image-Loads : Loads (load_image z r x n)
  unfolding load_image
  load_image-Loads =
      if_ind Loads (not (is_program r.mode)) _ _ (λ _. refl)
        (λ c. checked (load_checked z r x n) refl (ground (arith, c)))
    where
      checked :
          (o : Result Impl)
          → load_checked z r x n ≡ o
          → is_program r.mode ≡ true
          → Loads (elim o [ err st ↦ (st, r) | ret m ↦ (ok, record r { impl = some m }) ])
      checked (ret m) e p =
          let (ready, from) = load_checked-Ready m e in (m, refl, ready, refl, p, from)
      checked (err ok) e p = absurd ((load_checked-NotOk z r x n).holds e)
      checked (err _) e p = refl
