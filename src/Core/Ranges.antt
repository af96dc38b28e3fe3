-- ===== src/Core/Ranges.antt =====
-- The ACC of every timer is a non-negative int32_t, so INT32_MAX - ACC in TON does not overflow.
pub mod Instructions
pub mod Execute
pub mod Lifecycle
use rsmicro.Prelude.{
  ℕ, zero, suc, ◌≡◌, Bool, true, List, [], ◌∷◌, ◌&&◌, some, get_elem?, set, arith,
}
use rsmicro.Prelude.Int.{ℤ, pos, leb_ℤ}
use rsmicro.Core.Words.{int32_max}
use rsmicro.Core.Types.{Payload, Tag, Impl}

abbrev pub payload_ranged : Payload → Bool
payload_ranged (Payload.timer t) = leb_ℤ (pos 0) t.acc && leb_ℤ t.acc int32_max
payload_ranged _ = true

unfoldable pub tags_ranged : List Tag → Bool
tags_ranged [] = true
tags_ranged (t ∷ ts) = payload_ranged t.v && tags_ranged ts

abbrev pub Ranged : Impl → Type 0
Ranged m = tags_ranged m.tag ≡ true

pub tags_ranged-set :
    (ts : List Tag) (i : ℕ) (t : Tag)
    → tags_ranged ts ≡ true
    → payload_ranged t.v ≡ true
    → tags_ranged (set ts i t) ≡ true
unfolding tags_ranged
tags_ranged-set [] i t h k = h
tags_ranged-set (x ∷ ts) zero t h k = ground arith
tags_ranged-set (x ∷ ts) (suc i) t h k = ground (arith, tags_ranged-set ts i t)

pub tags_ranged-get_elem? :
    (ts : List Tag) (i : ℕ) (t : Tag)
    → tags_ranged ts ≡ true
    → get_elem? ts i ≡ some t
    → payload_ranged t.v ≡ true
unfolding tags_ranged
tags_ranged-get_elem? [] i t h e = cc
tags_ranged-get_elem? (x ∷ ts) zero t h e = ground arith
tags_ranged-get_elem? (x ∷ ts) (suc i) t h e = ground (arith, tags_ranged-get_elem? ts i t)
