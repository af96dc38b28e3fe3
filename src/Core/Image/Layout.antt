-- ===== src/Core/Image/Layout.antt =====
-- `required_layout`: the arena that a program needs.
use rsmicro.Prelude.{
  ℕ, ◌+◌, ◌*◌, ◌/◌, ◌%◌, ◌≤◌, ◌≡◌, refl, Option, none, some, some-injective, arith, ltb, if_ind,
  ◌-◌,
}
use rsmicro.Core.Image.Sections.{◌>>=◌, size_max, size_add, size_mul, size_align8}

-- The `sizeof` of the runtime's structs, which the C compiler chooses.
pub record Sizes : Type 0 where
  pub impl : ℕ
  pub tag : ℕ
  pub force : ℕ
  pub state : ℕ
  pub bool : ℕ

-- One table of the arena: `count` entries of `size` bytes after `q`, aligned.
abbrev pub add_table : ℕ → ℕ → ℕ → Option ℕ
add_table q count size = do bytes ← size_mul count size; end ← size_add q bytes; size_align8 end

unfoldable pub required_layout : Sizes → ℕ → ℕ → ℕ → Option ℕ
required_layout z tags states rungs = do
  start ← size_align8 0
  head ← size_add start z.impl
  tag_start ← size_align8 head
  force_start ← add_table tag_start tags z.tag
  state_start ← add_table force_start tags z.force
  rung_start ← add_table state_start states z.state
  add_table rung_start rungs z.bool

bind_inv {ℓ κ} :
    {A : Type ℓ} {B : Type κ} (o : Option A) (k : A → Option B) (b : B)
    → (o >>= k) ≡ some b
    → (a : A) × (o ≡ some a) × (k a ≡ some b)
bind_inv none k b h = cc
bind_inv (some a) k b h = (a, refl, h)

pub size_add-some : (a b c : ℕ) → size_add a b ≡ some c → c ≡ a + b
unfolding size_add
size_add-some a b c h = ground arith

size_mul-some : (a b c : ℕ) → size_mul a b ≡ some c → c ≡ a * b
unfolding size_mul
size_mul-some a b c h = ground arith

size_align8-some :
    (a c : ℕ) → size_align8 a ≡ some c → (a ≤ c) × (c ≤ a + 7) × (c % 8 ≡ 0) × (c ≤ size_max)
unfolding size_align8 size_add
size_align8-some a c h =
    if_ind (λ (o : Option ℕ). (o >>= (λ q. some (q / 8 * 8))) ≡ some c → Aligned)
      (ltb (size_max - 7) a) none (some (a + 7)) (λ _ e. absurd (none≢some e))
      (λ b e.
        let r : (a + 7) / 8 * 8 ≡ c = some-injective _ _ e in
        (omega arith, omega arith, omega arith, ground arith))
      h
  where
    none≢some : {x : ℕ} → none ≡ some x → ⊥
    none≢some e = cc

    Aligned : Type 0
    Aligned = (a ≤ c) × (c ≤ a + 7) × (c % 8 ≡ 0) × (c ≤ size_max)

add_table-some :
    (q count size c : ℕ)
    → add_table q count size ≡ some c
    → (q + count * size ≤ c) × (c ≤ q + count * size + 7) × (c % 8 ≡ 0) × (c ≤ size_max)
add_table-some q count size c h =
    let (bytes, e, k) = bind_inv (size_mul count size) _ c h in
    let (end, f, l) = bind_inv (size_add q bytes) _ c k in
    let m = size_mul-some count size bytes e in
    let a = size_add-some q bytes end f in
    let (lo, hi, al, mx) = size_align8-some end c l in
    (omega (arith, m, a, lo), omega (arith, m, a, hi), al, mx)

-- The size of the five parts without padding.
abbrev pub content : Sizes → ℕ → ℕ → ℕ → ℕ
content z tags states rungs =
    z.impl + tags * z.tag + tags * z.force + states * z.state + rungs * z.bool

-- The end of a part of `size` bytes from `start` on: the next multiple of 8.
pub record Padded (start size end : ℕ) : Type 0 where
  pub fits : start + size ≤ end
  pub padding : end ≤ start + size + 7
  pub aligned : end % 8 ≡ 0

-- The places of the four tables behind the runtime's struct.
pub record Layout (z : Sizes) (tags states rungs total : ℕ) : Type 0 where
  pub tag_start : ℕ
  pub force_start : ℕ
  pub state_start : ℕ
  pub rung_start : ℕ
  pub head : Padded 0 z.impl tag_start
  pub tag : Padded tag_start (tags * z.tag) force_start
  pub force : Padded force_start (tags * z.force) state_start
  pub state : Padded state_start (states * z.state) rung_start
  pub power : Padded rung_start (rungs * z.bool) total

-- When a layout is given, no sum has overflowed: the arena has the runtime's struct at 0 and its tag,
-- force, state and rung tables one behind the other, each of them starting at the first multiple of 8
-- at or after the end of the part before it, so with at most 7 bytes of padding, and ends at the first
-- multiple of 8 at or after the end of the last.
pub required_layout-content :
    (z : Sizes) (tags states rungs q : ℕ)
    → required_layout z tags states rungs ≡ some q
    → Layout z tags states rungs q
      × (content z tags states rungs ≤ q)
      × (q ≤ content z tags states rungs + 35)
      × (q % 8 ≡ 0)
      × (q ≤ size_max)
unfolding required_layout
required_layout-content z tags states rungs q h =
    let (start, e0, h0) = bind_inv (size_align8 0) _ q h in
    let (head, e1, h1) = bind_inv (size_add start z.impl) _ q h0 in
    let (t, e2, h2) = bind_inv (size_align8 head) _ q h1 in
    let (f, e3, h3) = bind_inv (add_table t tags z.tag) _ q h2 in
    let (s, e4, h4) = bind_inv (add_table f tags z.force) _ q h3 in
    let (r, e5, h5) = bind_inv (add_table s states z.state) _ q h4 in
    let (k0, m0, a0, _) = size_align8-some 0 start e0 in
    let k1 = size_add-some start z.impl head e1 in
    let (k2, m2, a2, _) = size_align8-some head t e2 in
    let (k3, m3, a3, _) = add_table-some t tags z.tag f e3 in
    let (k4, m4, a4, _) = add_table-some f tags z.force s e4 in
    let (k5, m5, a5, _) = add_table-some s states z.state r e5 in
    let (k6, m6, a6, mx) = add_table-some r rungs z.bool q h5 in
    (
      record {
        tag_start = t;
        force_start = f;
        state_start = s;
        rung_start = r;
        head = record { fits = omega arith; padding = omega arith; aligned = a2 };
        tag = record { fits = k3; padding = m3; aligned = a3 };
        force = record { fits = k4; padding = m4; aligned = a4 };
        state = record { fits = k5; padding = m5; aligned = a5 };
        power = record { fits = k6; padding = m6; aligned = a6 };
      },
      omega arith,
      omega arith,
      a6,
      mx,
    )
