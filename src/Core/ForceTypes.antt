-- ===== src/Core/ForceTypes.antt =====
-- The types of forced values: what `rsm_runtime_force_tag` checks, and what `value` relies on.
use rsmicro.Prelude.{
  ℕ, zero, suc, ◌≡◌, refl, true, false, List, [], ◌∷◌, map, some, get_elem?, set, replicate, arith,
  Option-cases, inl, inr, if_ind, not, ◌||◌, ltb, ◌==◌,
}
use rsmicro.Core.Types.{Status, ret, Value, type_of, Force, Tag, tag_type, Impl}
use rsmicro.Core.Frame.{Kind, tag_kind}
use rsmicro.Core.Tags.{value}
use rsmicro.Core.Tags.Force.{normalised, released, force_tag, clear_force, clear_all_forces}

-- An enabled force has a value of the tag's type.
abbrev pub Fits : Force → Kind → Type 0
Fits e k = e.enabled ≡ true → type_of e.value ≡ k.type

abbrev pub AllFit : List Force → List Kind → Type 0
AllFit [] ks = Unit
AllFit (e ∷ es) [] = Unit
AllFit (e ∷ es) (k ∷ ks) = Fits e k × AllFit es ks

abbrev pub IsTyped : Impl → Type 0
IsTyped m = AllFit m.force (map tag_kind m.tag)

get_elem?-kinds :
    (ts : List Tag) (i : ℕ) (t : Tag)
    → get_elem? ts i ≡ some t
    → get_elem? (map tag_kind ts) i ≡ some (tag_kind t)
get_elem?-kinds [] i t h = cc
get_elem?-kinds (x ∷ ts) zero t h = cc
get_elem?-kinds (x ∷ ts) (suc i) t h = get_elem?-kinds ts i t h

AllFit-get_elem? :
    (es : List Force) (ks : List Kind) (i : ℕ) (e : Force) (k : Kind)
    → AllFit es ks
    → get_elem? es i ≡ some e
    → get_elem? ks i ≡ some k
    → Fits e k
AllFit-get_elem? [] ks i e k a h g = cc
AllFit-get_elem? (x ∷ es) [] i e k a h g = cc
AllFit-get_elem? (x ∷ es) (y ∷ ks) zero e k (a, b) h g = λ o. ground (arith, a, h, g, o)
AllFit-get_elem? (x ∷ es) (y ∷ ks) (suc i) e k (a, b) h g = AllFit-get_elem? es ks i e k b h g

AllFit-set :
    (es : List Force) (ks : List Kind) (i : ℕ) (e : Force)
    → AllFit es ks
    → ((k : Kind) → get_elem? ks i ≡ some k → Fits e k)
    → AllFit (set es i e) ks
AllFit-set [] ks i e a f = tt
AllFit-set (x ∷ es) [] zero e a f = tt
AllFit-set (x ∷ es) [] (suc i) e a f = tt
AllFit-set (x ∷ es) (y ∷ ks) zero e (a, b) f = (f y refl, b)
AllFit-set (x ∷ es) (y ∷ ks) (suc i) e (a, b) f = (a, AllFit-set es ks i e b f)

AllFit-released : (es : List Force) (ks : List Kind) → AllFit (map released es) ks
AllFit-released [] ks = tt
AllFit-released (x ∷ es) [] = tt
AllFit-released (x ∷ es) (y ∷ ks) = (λ h. cc, AllFit-released es ks)

pub AllFit-replicate :
    (n : ℕ) (e : Force) (ks : List Kind) → e.enabled ≡ false → AllFit (replicate n e) ks
AllFit-replicate zero e ks h = tt
AllFit-replicate (suc n) e [] h = tt
AllFit-replicate (suc n) e (k ∷ ks) h = (λ o. cc, AllFit-replicate n e ks h)

pub force_tag-IsTyped : (m : Impl) (id : ℕ) (v : Value) → IsTyped m → IsTyped (force_tag m id v).1
unfolding force_tag
force_tag-IsTyped m id v h = elim (Option-cases (get_elem? m.tag id)) [
  | inl n ↦ rw (force_tag, n) h
  | inr (t, n) ↦ elim (Option-cases (get_elem? m.force id)) [
    | inl k ↦
        rw (force_tag, n, k)
          (if_ind (λ (x : Status × Impl). IsTyped x.1)
            (not (type_of v == tag_type t) || ltb 3 (tag_type t)) _ _ (λ _. h) (λ _. h))
    | inr (e, k) ↦
        rw (force_tag, n, k)
          (if_ind (λ (x : Status × Impl). IsTyped x.1)
            (not (type_of v == tag_type t) || ltb 3 (tag_type t)) _ _ (λ _. h)
            (λ c.
              AllFit-set m.force (map tag_kind m.tag) id
                (record { enabled = true; value = normalised v }) h
                (λ y g _. ground (arith, c, g, get_elem?-kinds m.tag id t n))))
  ]
]

pub clear_force-IsTyped : (m : Impl) (id : ℕ) → IsTyped m → IsTyped (clear_force m id).1
unfolding clear_force
clear_force-IsTyped m id h = elim (Option-cases (get_elem? m.tag id)) [
  | inl n ↦ rw (clear_force, n) h
  | inr (t, n) ↦ elim (Option-cases (get_elem? m.force id)) [
    | inl k ↦ rw (clear_force, n, k) h
    | inr (e, k) ↦
        rw (clear_force, n, k)
          (if_ind (λ (x : Status × Impl). IsTyped x.1) e.enabled _ _
            (λ _. AllFit-set m.force (map tag_kind m.tag) id (released e) h (λ y g o. cc)) (λ _. h))
  ]
]

pub clear_all_forces-IsTyped : (m : Impl) → IsTyped m → IsTyped (clear_all_forces m).1
unfolding clear_all_forces
clear_all_forces-IsTyped m h = AllFit-released m.force (map tag_kind m.tag)

-- The effective value of a tag has the tag's type.
pub value-IsTyped :
    (m : Impl) (id : ℕ) (t : Tag) (v : Value)
    → IsTyped m
    → get_elem? m.tag id ≡ some t
    → value m id ≡ ret v
    → type_of v ≡ tag_type t
unfolding value
value-IsTyped m id t v a h g = elim (Option-cases (get_elem? m.force id)) [
  | inl n ↦ ground (arith, h, g, n)
  | inr (e, n) ↦
      let f =
        AllFit-get_elem? m.force (map tag_kind m.tag) id e (tag_kind t) a n
          (get_elem?-kinds m.tag id t h) in
      ground (arith, h, g, n, f)
]
