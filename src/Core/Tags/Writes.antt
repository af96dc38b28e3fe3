-- ===== src/Core/Tags/Writes.antt =====
-- What a write does, and what a read sees after it.
use rsmicro.Prelude.{
  ℕ, ◌≡◌, ◌≢◌, ◌↔◌, ◌≤◌, ◌==◌, refl, inl, inr, if◌then◌else◌, some, none, arith, get_elem?, set,
  length, length-append, [], ◌∷◌, Option-cases, List, Option, zero, suc,
}
use rsmicro.Core.Types.{
  ok, ret, Value, boolean, dint, real, type_of, as_boolean, as_dint, as_real, Payload, payload_type,
  Tag, tag_type, Impl, trace_capacity,
}
use rsmicro.Core.Tags.{value, put, truth, overlay, store, backing}

-- A scalar as its tag holds it.
abbrev pub stored : Value → Value
stored v =
    if type_of v == 1
    then boolean (truth (as_boolean v))
    else if type_of v == 2
    then dint (as_dint v)
    else real (as_real v)

-- The tags that `put` accepts for a value: no input, and of the value's scalar type.
abbrev pub Accepts : Value → Tag → Type 0
Accepts v t = (t.storage ≢ 1) × (type_of v ≡ tag_type t) × (tag_type t ≤ 3)

pub get_elem?-set {ℓ} :
    {A : Type ℓ} (xs : List A) (i j : ℕ) (x v : A)
    → get_elem? xs i ≡ some x
    → get_elem? (set xs i v) j ≡ (if i == j then some v else get_elem? xs j)
get_elem?-set [] i j x v h = cc
get_elem?-set (y ∷ ys) zero zero x v h = ground arith
get_elem?-set (y ∷ ys) zero (suc j) x v h = ground arith
get_elem?-set (y ∷ ys) (suc i) zero x v h = ground arith
get_elem?-set (y ∷ ys) (suc i) (suc j) x v h = ground (arith, get_elem?-set ys i j x v h)

-- A write returns OK exactly when the tag exists, is no input, and has the value's type, a scalar.
pub put-ok_iff :
    (m : Impl) (id : ℕ) (v : Value)
    → ((put m id v).0 ≡ ok) ↔ ((t : Tag) × (get_elem? m.tag id ≡ some t) × Accepts v t)
unfolding put
put-ok_iff m id v = (λ h. accepted (get_elem? m.tag id) refl h, λ (t, e, a). ok_of t e a)
  where
    accepted :
        (o : Option Tag)
        → get_elem? m.tag id ≡ o
        → (put m id v).0 ≡ ok
        → (t : Tag) × (get_elem? m.tag id ≡ some t) × Accepts v t
    accepted none e h = ground arith
    accepted (some t) e h = (t, e, ground arith)

    ok_of : (t : Tag) → get_elem? m.tag id ≡ some t → Accepts v t → (put m id v).0 ≡ ok
    ok_of t e a = ground arith

-- A write that does not return OK changes nothing.
pub put-fails : (m : Impl) (id : ℕ) (v : Value) → (put m id v).0 ≢ ok → (put m id v).1 ≡ m
unfolding put
put-fails m id v h = ground arith

store-backing :
    (p q : Payload) (v : Value)
    → type_of v ≡ payload_type p
    → store p v ≡ some q
    → backing q ≡ ret (stored v)
store-backing (Payload.b x) q v e h = ground arith
store-backing p q v e h = ground arith

-- The state after a write that returns OK.
put-written :
    (m : Impl) (id : ℕ) (v : Value)
    → (put m id v).0 ≡ ok
    → (t : Tag) × (p : Payload) × (get_elem? m.tag id ≡ some t)
      × (backing p ≡ ret (stored v))
      × ((put m id v).1.tag ≡ set m.tag id (record t { v = p }))
      × ((put m id v).1.force ≡ m.force)
unfolding put
put-written m id v h = elim (Option-cases (get_elem? m.tag id)) [
  | inl e ↦ ground arith
  | inr (t, e) ↦ elim (Option-cases (store t.v v)) [
    | inl e' ↦ ground arith
    | inr (p, e') ↦ (t, p, e, store-backing t.v p v (ground arith) e', ground arith, ground arith)
  ]
]

value_of_set :
    (m n : Impl) (id j : ℕ) (t : Tag) (p : Payload) (w : Value)
    → get_elem? m.tag id ≡ some t
    → backing p ≡ ret w
    → n.tag ≡ set m.tag id (record t { v = p })
    → n.force ≡ m.force
    → value n j ≡ (if id == j then ret (overlay m id w) else value m j)
unfolding value
value_of_set m n id j t p w e b h k =
    ground (arith, get_elem?-set m.tag id j t (record t { v = p }))

-- After a write that returns OK, reading its tag gives the value as the tag holds it, under a force
-- the forced value, and every other tag reads as before.
pub value-put :
    (m : Impl) (id j : ℕ) (v : Value)
    → (put m id v).0 ≡ ok
    → value (put m id v).1 j ≡ (if id == j then ret (overlay m id (stored v)) else value m j)
value-put m id j v h =
    let (t, p, e, b, k, f) = put-written m id v h in
    value_of_set m (put m id v).1 id j t p (stored v) e b k f

-- The write trace never outgrows its capacity.
pub put-trace :
    (m : Impl) (id : ℕ) (v : Value)
    → length m.trace ≤ trace_capacity
    → length (put m id v).1.trace ≤ trace_capacity
unfolding put
put-trace m id v h = ground (arith, length-append m.trace (record { tag = id; value = v } ∷ []))
