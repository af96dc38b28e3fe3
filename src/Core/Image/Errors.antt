-- ===== src/Core/Image/Errors.antt =====
-- The checks of an image never report OK as their error.
use rsmicro.Prelude.{
  ℕ, zero, suc, ◌+◌, ◌-◌, ◌*◌, ◌≢◌, ap, Bool, true, false, not, ◌&&◌, ◌||◌, ◌==◌, ltb,
  if◌then◌else◌, if_ind, Option, none, some, drop,
}
use rsmicro.Core.Names.{profile_id}
use rsmicro.Core.Words.{Bytes, byte, u16, u32, u32_max}
use rsmicro.Core.Types.{
  Status, ok, Result, ret, err, bad_image, bad_crc, unsupported_image_version, unsupported_profile,
  unsupported_abi, Runtime,
}
use rsmicro.Core.Opcode.{opcode_known}
use rsmicro.Core.Machine.{instr_size}
use rsmicro.Core.Image.Sections.{
  sections, size_mul, size_add, has_state, count_slots, state_slot_count, header_bytes,
  descriptor_bytes,
}
use rsmicro.Core.Image.Layout.{Sizes, required_layout}
use rsmicro.Core.Image.Code.{CodeState, check_instr, check_code}
use rsmicro.Core.Image.Validate.{
  ◌>>=◌, require, ImageInfo, validate_image, check_header, image_crc, descriptors_ok, tags_ok,
  code_section, table_section, fresh_code_state, rungs_ok,
}
use rsmicro.Core.Image.Load.{layout_of, load_checked, has_room}

pub record NotOk {ℓ} {A : Type ℓ} (o : Result A) : Type ℓ where
  pub holds : o ≢ err ok

fine {ℓ} : {A : Type ℓ} (a : A) → NotOk (ret a)
fine a = record { holds = λ e. cc }

err-NotOk {ℓ} : {A : Type ℓ} (st : Status) → st ≢ ok → NotOk {A = A} (err st)
err-NotOk {A = A} st h = record { holds = λ e. h (ap status_of e) }
  where
    status_of : Result A → Status
    status_of (ret a) = st
    status_of (err t) = t

bad {ℓ} : {A : Type ℓ} → NotOk {A = A} (err bad_image)
bad = err-NotOk bad_image (λ e. cc)

bind-NotOk {ℓ κ} :
    {A : Type ℓ} {B : Type κ} (o : Result A) (k : A → Result B)
    → NotOk o
    → ((a : A) → NotOk (k a))
    → NotOk (o >>= k)
bind-NotOk (ret a) k h g = g a
bind-NotOk (err st) k h g = err-NotOk st (λ e. h.holds (ap err e))

require-NotOk : (c : Bool) (st : Status) → st ≢ ok → NotOk (require c st)
require-NotOk true st h = fine tt
require-NotOk false st h = err-NotOk st h

check_code-NotOk :
    (tags : Bytes) (count : ℕ) (code : Bytes) (size fuel p : ℕ) (s : CodeState) (ic : ℕ)
    → NotOk (check_code tags count code size fuel p s ic)
unfolding check_code
check_code-NotOk tags count code size zero p s ic =
    if_ind NotOk (ltb p size) _ _ (λ _. bad)
      (λ _. if_ind NotOk (s.depth == 0) _ _ (λ _. fine _) (λ _. bad))
check_code-NotOk tags count code size (suc fuel) p s ic =
    if_ind NotOk (not (ltb p size)) _ _
      (λ _. if_ind NotOk (s.depth == 0) _ _ (λ _. fine _) (λ _. bad))
      (λ _.
        if_ind NotOk (ltb (size - p) 12) _ _ (λ _. bad)
          (λ _.
            if_ind NotOk (not (opcode_known (byte code p))) _ _ (λ _. err-NotOk _ (λ e. cc))
              (λ _.
                if_ind NotOk (ltb 3 (byte code (p + 1)) || ltb (size - p) (instr_size code p)) _ _
                  (λ _. bad)
                  (λ _.
                    next (check_code-NotOk tags count code size fuel (p + instr_size code p))
                      (check_instr tags count code p s)))))
  where
    next :
        ((s' : CodeState) (ic : ℕ)
          → NotOk (check_code tags count code size fuel (p + instr_size code p) s' ic))
        → (o : Option CodeState)
        → NotOk (elim o [
          | none ↦ err bad_image
          | some s' ↦ check_code tags count code size fuel (p + instr_size code p) s' (ic + 1)
        ])
    next ih none = bad
    next ih (some s') = ih s' (ic + 1)

count_slots-NotOk :
    (code : Bytes) (size fuel p count : ℕ) → NotOk (count_slots code size fuel p count)
unfolding count_slots
count_slots-NotOk code size zero p count = if_ind NotOk (ltb p size) _ _ (λ _. bad) (λ _. fine _)
count_slots-NotOk code size (suc fuel) p count =
    if_ind NotOk (not (ltb p size)) _ _ (λ _. fine _)
      (λ _.
        if_ind NotOk
          (ltb (size - p) (12 + byte code (p + 1) * 8)
            || (has_state (byte code p) && count == u32_max))
          _ _ (λ _. bad)
          (λ _.
            count_slots-NotOk code size fuel (p + (12 + byte code (p + 1) * 8))
              (if has_state (byte code p) then count + 1 else count)))

state_slot_count-NotOk : (x : Bytes) (n : ℕ) → NotOk (state_slot_count x n)
unfolding state_slot_count
state_slot_count-NotOk x n = found (sections x n 8)
  where
    found :
        (o : Option (ℕ × ℕ))
        → NotOk (elim o [ none ↦ err bad_image | some s ↦ count_slots (drop s.0 x) s.1 s.1 0 0 ])
    found none = bad
    found (some s) = count_slots-NotOk (drop s.0 x) s.1 s.1 0 0

code_section-NotOk : (x : Bytes) (n : ℕ) → NotOk (code_section x n)
unfolding code_section
code_section-NotOk x n = found (sections x n 8)
  where
    found :
        (o : Option (ℕ × ℕ))
        → NotOk {A = Bytes × ℕ} (elim o [ none ↦ err bad_image | some s ↦ ret (drop s.0 x, s.1) ])
    found none = bad
    found (some s) = fine _

table_section-NotOk : (x : Bytes) (n kind size : ℕ) → NotOk (table_section x n kind size)
unfolding table_section
table_section-NotOk x n kind size = found (sections x n kind)
  where
    summed :
        (s : ℕ × ℕ) (o : Option ℕ)
        → NotOk (elim o [
          | none ↦ err bad_image
          | some total ↦ if s.1 == total then ret (drop s.0 x) else err bad_image
        ])
    summed s none = bad
    summed s (some total) = if_ind NotOk (s.1 == total) _ _ (λ _. fine _) (λ _. bad)

    sized :
        (s : ℕ × ℕ) (o : Option ℕ)
        → NotOk (elim o [
          | none ↦ err bad_image
          | some bytes ↦ elim (size_add 4 bytes) [
            | none ↦ err bad_image
            | some total ↦ if s.1 == total then ret (drop s.0 x) else err bad_image
          ]
        ])
    sized s none = bad
    sized s (some bytes) = summed s (size_add 4 bytes)

    found :
        (o : Option (ℕ × ℕ))
        → NotOk (elim o [
          | none ↦ err bad_image
          | some s ↦
              if ltb s.1 4 then err bad_image else elim (size_mul (u32 (drop s.0 x) 0) size) [
                | none ↦ err bad_image
                | some bytes ↦ elim (size_add 4 bytes) [
                  | none ↦ err bad_image
                  | some total ↦ if s.1 == total then ret (drop s.0 x) else err bad_image
                ]
              ]
        ])
    found none = bad
    found (some s) =
        if_ind NotOk (ltb s.1 4) _ _ (λ _. bad) (λ _. sized s (size_mul (u32 (drop s.0 x) 0) size))

check_header-NotOk : (x : Bytes) (n : ℕ) → NotOk (check_header x n)
unfolding check_header
check_header-NotOk x n =
    if_ind NotOk
      (ltb n header_bytes
        || not (byte x 0 == b'R' && byte x 1 == b'S' && byte x 2 == b'M' && byte x 3 == b'1'))
      _ _ (λ _. bad)
      λ _.
        if_ind NotOk (not (byte x 4 == 2)) _ _ (λ _. err-NotOk unsupported_image_version (λ e. cc))
          λ _.
            if_ind NotOk (not (u16 x 6 == header_bytes) || not (u32 x 8 == n)) _ _ (λ _. bad)
              λ _.
                if_ind NotOk (not (u32 x 12 == profile_id)) _ _
                  (λ _. err-NotOk unsupported_profile (λ e. cc))
                  λ _.
                    if_ind NotOk (not (u16 x 16 == 2)) _ _
                      (λ _. err-NotOk unsupported_abi (λ e. cc))
                      λ _.
                        if_ind NotOk
                          (not (u16 x 18 == 16)
                            || ltb (n - header_bytes) (u16 x 18 * descriptor_bytes))
                          _ _ (λ _. bad)
                          λ _.
                            if_ind NotOk (not (descriptors_ok x n (u16 x 18) (u16 x 18) 0)) _ _
                              (λ _. bad)
                              λ _.
                                if_ind NotOk (not (image_crc x n == u32 x 68)) _ _
                                  (λ _. err-NotOk bad_crc (λ e. cc)) (λ _. fine tt)

validate_image-NotOk : (x : Bytes) (n : ℕ) → NotOk (validate_image x n)
unfolding validate_image
validate_image-NotOk x n = bind-NotOk (check_header x n) _ (check_header-NotOk x n) λ _.
    bind-NotOk (table_section x n 15 20) _ (table_section-NotOk x n 15 20) λ tags.
      bind-NotOk (require (tags_ok tags (u32 tags 0) 0) bad_image) _
        (require-NotOk _ bad_image (λ e. cc))
        λ _. bind-NotOk (code_section x n) _ (code_section-NotOk x n) λ code.
          bind-NotOk (check_code tags (u32 tags 0) code.0 code.1 code.1 0 fresh_code_state 0) _
            (check_code-NotOk tags (u32 tags 0) code.0 code.1 code.1 0 fresh_code_state 0)
            λ ic. bind-NotOk (table_section x n 16 12) _ (table_section-NotOk x n 16 12) λ rungs.
              bind-NotOk (require (rungs_ok rungs code ic) bad_image) _
                (require-NotOk _ bad_image (λ e. cc)) λ _. fine _

layout_of-NotOk : (z : Sizes) (info : ImageInfo) (states : ℕ) → NotOk (layout_of z info states)
unfolding layout_of
layout_of-NotOk z info states = placed (required_layout z info.tag_count states info.rung_count)
  where
    placed :
        (o : Option ℕ) → NotOk {A = ℕ} (elim o [ none ↦ err bad_image | some layout ↦ ret layout ])
    placed none = bad
    placed (some layout) = fine _

pub load_checked-NotOk :
    {W : Type 0} (z : Sizes) (r : Runtime W) (x : Bytes) (n : ℕ) → NotOk (load_checked z r x n)
unfolding load_checked
load_checked-NotOk z r x n = bind-NotOk (validate_image x n) _ (validate_image-NotOk x n) λ info.
    bind-NotOk (state_slot_count x n) _ (state_slot_count-NotOk x n) λ states.
      bind-NotOk (layout_of z info states) _ (layout_of-NotOk z info states) λ layout.
        if_ind NotOk (has_room r.arena r.arena_size layout) _ _
          (λ _. bind-NotOk (table_section x n 15 20) _ (table_section-NotOk x n 15 20) λ tags.
            bind-NotOk (code_section x n) _ (code_section-NotOk x n) λ code.
              bind-NotOk (table_section x n 16 12) _ (table_section-NotOk x n 16 12)
                λ rungs. fine _)
          (λ _. err-NotOk _ (λ e. cc))
