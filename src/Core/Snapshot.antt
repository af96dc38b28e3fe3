-- ===== src/Core/Snapshot.antt =====
-- `rsm_runtime_snapshot` and `rsm_runtime_snapshot_members`: observation by callbacks.
pub mod Complete
use rsmicro.Prelude.{
  ℕ, zero, suc, ◌+◌, ◌-◌, ◌==◌, leb, if◌then◌else◌, Bool, true, false, not, ◌&&◌, ◌||◌, List, [],
  ◌∷◌, Option, none, some, length, get_elem?,
}
use rsmicro.Core.Words.{u32_max}
use rsmicro.Core.Types.{
  Status, ok, invalid_state, hal_error, Result, ret, err, Value, boolean, dint, real, Payload,
  payload_type, Tag, Force, State, Mode, Diagnostics, Fault, Impl, Runtime,
}
use rsmicro.Core.Tags.{bit, overlay, read_member}

-- `rsm_snapshot_writer_t` over its context. `value` must be there.
pub record Writer (C : Type 0) : Type 0 where
  pub value : C → ℕ → Value → Value → Bool → Status × C
  pub member : Option (C → ℕ → ℕ → Value → Status × C)
  pub state : Option (C → Mode → Diagnostics → Fault → ℕ → ℕ → ℕ → ℕ → Status × C)
  pub rung_power : Option (C → ℕ → ℕ → Status × C)

abbrev pub member_ok : ℕ → ℕ → Bool
member_ok type member =
    member == 0
    || (type == 4 && (leb 1 member && leb member 5))
    || (type == 5 && (leb 1 member && leb member 2))
    || (type == 5 && (leb 5 member && leb member 9))

-- is the force of a tag enabled
abbrev pub forced : Impl → ℕ → Bool
forced m i = elim (get_elem? m.force i) [ none ↦ false | some e ↦ e.enabled ]

module _ {C : Type 0} where
  -- what follows a callback: only its OK lets the traversal go on
  infixl 5 ◌>>=◌
  abbrev pub ◌>>=◌ : Status × C → (C → Status × C) → Status × C
  (st, c) >>= k = elim st [ ok ↦ k c | _ ↦ (hal_error, c) ]

  module _ (writer : Option (C → ℕ → ℕ → Value → Status × C)) (m : Impl) where
    abbrev pub write_member : ℕ → ℕ → Value → C → Status × C
    write_member i member v c = elim writer [ none ↦ (ok, c) | some write ↦ write c i member v ]

    -- one round of the loop over the members
    unfoldable pub snapshot_member : ℕ → ℕ → ℕ → C → Status × C
    snapshot_member i type member c =
        if not (member_ok type member) then (ok, c) else elim (read_member m i member) [
          | err _ ↦ (hal_error, c)
          | ret v ↦ write_member i member v c
        ]

    -- The `left` members from `member` on.
    unfoldable pub snapshot_each : ℕ → ℕ → ℕ → ℕ → C → Status × C
    snapshot_each i type zero member c = (ok, c)
    snapshot_each i type (suc left) member c =
        snapshot_member i type member c >>= snapshot_each i type left (member + 1)

    -- all members of a timer, which has five, or of a counter
    unfoldable pub snapshot_composite : ℕ → ℕ → C → Status × C
    snapshot_composite i type c = snapshot_each i type (if type == 4 then 5 else 9) 1 c

    -- The loop of `rsm_runtime_snapshot_members` over the tags from number `i` on.
    unfoldable pub members_loop : ℕ → List Tag → C → Status × C
    members_loop i [] c = (ok, c)
    members_loop i (t ∷ ts) c =
        (if leb 4 (payload_type t.v) then snapshot_composite i (payload_type t.v) c else (ok, c))
        >>= members_loop (i + 1) ts

  module _ (w : Writer C) (m : Impl) where
    -- a scalar: its logical value, and the effective one under the force
    abbrev pub snapshot_scalar : ℕ → Value → C → Status × C
    snapshot_scalar i v c = w.value c i v (overlay m i v) (forced m i)

    unfoldable pub snapshot_tag : ℕ → Payload → C → Status × C
    snapshot_tag i (Payload.b x) c = snapshot_scalar i (boolean x) c
    snapshot_tag i (Payload.d x) c = snapshot_scalar i (dint x) c
    snapshot_tag i (Payload.f x) c = snapshot_scalar i (real x) c
    snapshot_tag i (Payload.timer _) c = snapshot_composite w.member m i 4 c
    snapshot_tag i (Payload.counter _) c = snapshot_composite w.member m i 5 c

    unfoldable pub snapshot_tags : ℕ → List Tag → C → Status × C
    snapshot_tags i [] c = (ok, c)
    snapshot_tags i (t ∷ ts) c = snapshot_tag i t.v c >>= snapshot_tags (i + 1) ts

    unfoldable pub snapshot_state : Mode → ℕ → ℕ → ℕ → ℕ → C → Status × C
    snapshot_state mode slot edge valid time c = elim w.state [
      | none ↦ (ok, c)
      | some write ↦ write c mode m.diag m.fault slot edge valid time
    ]

    unfoldable pub snapshot_each_state : Mode → List State → C → Status × C
    snapshot_each_state mode [] c = (ok, c)
    snapshot_each_state mode (s ∷ ss) c =
        snapshot_state mode s.slot (bit s.edge) (bit s.valid) s.time c
        >>= snapshot_each_state mode ss

    -- Without state records the callback is made once, with slot UINT32_MAX.
    unfoldable pub snapshot_states : Mode → List State → C → Status × C
    snapshot_states mode [] c = snapshot_state mode u32_max 0 0 0 c
    snapshot_states mode (s ∷ ss) c = snapshot_each_state mode (s ∷ ss) c

    unfoldable pub snapshot_rungs : ℕ → List ℕ → C → Status × C
    snapshot_rungs i [] c = (ok, c)
    snapshot_rungs i (p ∷ ps) c =
        elim w.rung_power [ none ↦ (ok, c) | some write ↦ write c i p ]
        >>= snapshot_rungs (i + 1) ps

    unfoldable pub snapshot_impl : Mode → C → Status × C
    snapshot_impl mode c =
        snapshot_tags 0 m.tag c
        >>= snapshot_states mode m.state
        >>= snapshot_rungs 0 m.rung_power
        >>= (λ c'. (ok, c'))

  unfoldable pub snapshot : {W : Type 0} → Writer C → Runtime W → C → Status × C
  snapshot w r c = elim r.impl [ none ↦ (invalid_state, c) | some m ↦ snapshot_impl w m r.mode c ]

  unfoldable pub snapshot_members :
      {W : Type 0} → (C → ℕ → ℕ → Value → Status × C) → Runtime W → C → Status × C
  snapshot_members write r c = elim r.impl [
    | none ↦ (invalid_state, c)
    | some m ↦ members_loop (some write) m 0 m.tag c >>= (λ c'. (ok, c'))
  ]
