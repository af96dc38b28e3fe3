-- ===== src/Core/Image/Valid.antt =====
-- What an image that passed `rsm_runtime_validate_image` promises.
use rsmicro.Prelude.{ℕ, ◌≡◌, refl, Bool, true, false, arith, ap, sym, ◌∙◌}
use rsmicro.Core.Words.{Bytes, u32}
use rsmicro.Core.Types.{Status, Result, ret, err, bad_image}
use rsmicro.Core.Image.Rungs.{rung_boundaries_ok}
use rsmicro.Core.Image.Code.{check_code}
use rsmicro.Core.Image.Validate.{
  ◌>>=◌, require, ImageInfo, validate_image, check_header, tags_ok, code_section, table_section,
  fresh_code_state, rungs_ok,
}

-- The parts of an accepted image.
pub record Valid (x : Bytes) (n : ℕ) (info : ImageInfo) : Type 0 where
  pub tags : Bytes
  pub code : Bytes × ℕ
  pub rungs : Bytes
  pub tags_at : table_section x n 15 20 ≡ ret tags
  pub code_at : code_section x n ≡ ret code
  pub rungs_at : table_section x n 16 12 ≡ ret rungs
  pub tag_count : info.tag_count ≡ u32 tags 0
  pub rung_count : info.rung_count ≡ u32 rungs 0
  pub tags_pass : tags_ok tags (u32 tags 0) 0 ≡ true
  pub checked :
      check_code tags (u32 tags 0) code.0 code.1 code.1 0 fresh_code_state 0
      ≡ ret info.instruction_count
  pub walked : rung_boundaries_ok code.0 code.1 rungs ≡ true

pub bind_inv {ℓ κ} :
    {A : Type ℓ} {B : Type κ} (o : Result A) (k : A → Result B) (b : B)
    → (o >>= k) ≡ ret b
    → (a : A) × (o ≡ ret a) × (k a ≡ ret b)
bind_inv (ret a) k b h = (a, refl, h)
bind_inv (err st) k b h = cc

require_inv : (c : Bool) (st : Status) → require c st ≡ ret tt → c ≡ true
require_inv true st h = refl
require_inv false st h = cc

pub ret-injective {ℓ} : {A : Type ℓ} (a b : A) → ret a ≡ ret b → a ≡ b
ret-injective {A = A} a b h = ap from h
  where
    from : Result A → A
    from (ret x) = x
    from (err _) = a

-- An image that is accepted has its three sections, with the counts that are reported, and they have
-- passed their checks.
pub validate_image-Valid :
    (x : Bytes) (n : ℕ) (info : ImageInfo) → validate_image x n ≡ ret info → Valid x n info
unfolding validate_image
validate_image-Valid x n info h =
    let (_, _, h₁) = bind_inv (check_header x n) _ info h in
    let (tags, e₂, h₂) = bind_inv (table_section x n 15 20) _ info h₁ in
    let (tt, e₃, h₃) = bind_inv (require (tags_ok tags (u32 tags 0) 0) bad_image) _ info h₂ in
    let (code, e₄, h₄) = bind_inv (code_section x n) _ info h₃ in
    let (ic, e₅, h₅) =
      bind_inv (check_code tags (u32 tags 0) code.0 code.1 code.1 0 fresh_code_state 0) _ info h₄ in
    let (rungs, e₆, h₆) = bind_inv (table_section x n 16 12) _ info h₅ in
    let (_, e₇, h₇) = bind_inv (require (rungs_ok rungs code ic) bad_image) _ info h₆ in
    let same = ret-injective _ info h₇ in
    record {
      tags = tags;
      code = code;
      rungs = rungs;
      tags_at = e₂;
      code_at = e₄;
      rungs_at = e₆;
      tag_count = ap (λ (i : ImageInfo). i.tag_count) (sym same);
      rung_count = ap (λ (i : ImageInfo). i.rung_count) (sym same);
      tags_pass = require_inv _ bad_image e₃;
      checked = e₅ ∙ ap ret (ap (λ (i : ImageInfo). i.instruction_count) same);
      walked = ground (arith, require_inv (rungs_ok rungs code ic) bad_image e₇);
    }
