-- ===== src/Core/Frame.antt =====
-- What running instructions never changes of a loaded program.
pub mod Arith
pub mod Timing
pub mod Instructions
pub mod Onward
pub mod Runs
pub mod Lifecycle
use rsmicro.Prelude.{ℕ, ◌≡◌, List, map, some, get_elem?, set, map-set}
use rsmicro.Core.Words.{Bytes}
use rsmicro.Core.Types.{Payload, payload_type, Tag, tag_type, State, Force, Impl}

-- The fixed part of a tag: its storage, retention and type.
pub record Kind : Type 0 where
  pub storage : ℕ
  pub retentive : ℕ
  pub type : ℕ

abbrev pub tag_kind : Tag → Kind
tag_kind t = record { storage = t.storage; retentive = t.retentive; type = tag_type t }

abbrev pub state_slot : State → ℕ
state_slot s = s.slot

-- The program, the forces and their count, the rungs' powers, the kinds of the tags and the slots of the states.
pub record Fixed : Type 0 where
  pub image : Bytes
  pub code : Bytes
  pub code_size : ℕ
  pub rungs : ℕ
  pub rung_data : Bytes
  pub rung_power : List ℕ
  pub force : List Force
  pub kinds : List Kind
  pub slots : List ℕ
  pub active_force_count : ℕ

abbrev pub fixed : Impl → Fixed
fixed m = record {
  image = m.image;
  code = m.code;
  code_size = m.code_size;
  rungs = m.rungs;
  rung_data = m.rung_data;
  rung_power = m.rung_power;
  force = m.force;
  kinds = map tag_kind m.tag;
  slots = map state_slot m.state;
  active_force_count = m.diag.active_force_count;
}

-- `n` has the fixed parts of `m`.
abbrev pub Frame : Impl → Impl → Type 0
Frame m n = fixed n ≡ fixed m

-- A payload of the same type keeps the tag's kind.
pub Frame-set_tag :
    (m : Impl) (id : ℕ) (t : Tag) (p : Payload)
    → get_elem? m.tag id ≡ some t
    → payload_type p ≡ payload_type t.v
    → map tag_kind (set m.tag id (record t { v = p })) ≡ map tag_kind m.tag
Frame-set_tag m id t p h e =
    map-set tag_kind m.tag id t (record t { v = p }) h
      (λ i. record { storage = t.storage; retentive = t.retentive; type = e i })

-- A state record keeps its slot.
pub Frame-set_state :
    (m : Impl) (k : ℕ) (x y : State)
    → get_elem? m.state k ≡ some x
    → y.slot ≡ x.slot
    → map state_slot (set m.state k y) ≡ map state_slot m.state
Frame-set_state m k x y h e = map-set state_slot m.state k x y h e
