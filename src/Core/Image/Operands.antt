-- ===== src/Core/Image/Operands.antt =====
-- The operand checks of an image: `member_type` to `validate_operands`.
use rsmicro.Prelude.{
  ℕ, ◌+◌, ◌*◌, ◌≤◌, ◌<◌, ◌≡◌, ◌==◌, ltb, leb, if◌then◌else◌, Bool, true, false, not, ◌&&◌, ◌||◌,
  some, get_elem?, arith,
}
use rsmicro.Core.Words.{Bytes, byte}
use rsmicro.Core.Types.{ok, Value, type_of, Tag, tag_type, Impl}
use rsmicro.Core.Opcode.{Opcode}
use rsmicro.Core.Machine.{Operand, destination}
use rsmicro.Core.Tags.{put}
use rsmicro.Core.Tags.Writes.{put-ok_iff}

abbrev pub scalar_type : ℕ → Bool
scalar_type type = leb 1 type && leb type 3

-- 0 is no member
unfoldable pub member_type : ℕ → ℕ → ℕ
member_type tag member =
    if tag == 4 && (member == 1 || member == 2)
    then 2
    else if tag == 4 && (leb 3 member && leb member 5)
    then 1
    else if tag == 5 && (member == 1 || member == 2)
    then 2
    else if tag == 5 && (leb 5 member && leb member 9)
    then 1
    else 0

-- `tags[4u+id*20u]` and `tags[5u+id*20u]` of the tag section
abbrev pub type_byte : Bytes → ℕ → ℕ
type_byte tags id = byte tags (4 + id * 20)

abbrev pub storage_byte : Bytes → ℕ → ℕ
storage_byte tags id = byte tags (5 + id * 20)

-- what a tag operand denotes: the member if it names one, else the tag
abbrev pub denoted : Operand → Bytes → ℕ
denoted o tags =
    if o.member == 0 then type_byte tags o.word else member_type (type_byte tags o.word) o.member

unfoldable pub tag_operand : Operand → Bytes → ℕ → ℕ → Bool → Bool
tag_operand o tags count type writable =
    o.kind == 1
    && ltb o.word count
    && o.type == type
    && denoted o tags == type
    && (not writable || (o.member == 0 && not (storage_byte tags o.word == 1)))

unfoldable pub scalar_operand : Operand → Bytes → ℕ → Bool → Bool
scalar_operand o tags count numeric_only =
    if o.kind == 2
    then o.member == 0 && scalar_type o.type && (not numeric_only || leb 2 o.type)
    else o.kind == 1
      && ltb o.word count
      && not (denoted o tags == 0)
      && denoted o tags == o.type
      && scalar_type (denoted o tags)
      && (not numeric_only || leb 2 (denoted o tags))

abbrev pub numeric_type : ℕ → Bool
numeric_type type = type == 2 || type == 3

module _ (a b d : Operand) (tags : Bytes) (count : ℕ) where
  unfoldable pub validate_compare : Bool
  validate_compare = scalar_operand a tags count true && scalar_operand b tags count true

  unfoldable pub validate_math : Bool
  validate_math =
      scalar_operand a tags count true
      && scalar_operand b tags count true
      && tag_operand d tags count d.type true
      && numeric_type d.type

  unfoldable pub validate_unary : Bool
  validate_unary =
      scalar_operand a tags count true
      && tag_operand b tags count b.type true
      && numeric_type b.type

  unfoldable pub validate_operands : Opcode → Bool
  validate_operands Opcode.xic = tag_operand a tags count 1 false
  validate_operands Opcode.xio = tag_operand a tags count 1 false
  validate_operands Opcode.ote = tag_operand a tags count 1 true
  validate_operands Opcode.otl = tag_operand a tags count 1 true
  validate_operands Opcode.otu = tag_operand a tags count 1 true
  validate_operands Opcode.ons = tag_operand a tags count 1 true
  validate_operands Opcode.ton = tag_operand a tags count 4 false
  validate_operands Opcode.ctu = tag_operand a tags count 5 false
  validate_operands Opcode.ctd = tag_operand a tags count 5 false
  validate_operands Opcode.res =
      tag_operand a tags count 4 false || tag_operand a tags count 5 false
  validate_operands Opcode.eq = validate_compare
  validate_operands Opcode.ne = validate_compare
  validate_operands Opcode.gt = validate_compare
  validate_operands Opcode.ge = validate_compare
  validate_operands Opcode.lt = validate_compare
  validate_operands Opcode.le = validate_compare
  validate_operands Opcode.clr = tag_operand a tags count a.type true && scalar_type a.type
  validate_operands Opcode.mov =
      scalar_operand a tags count false
      && tag_operand b tags count b.type true
      && scalar_type b.type
  validate_operands Opcode.add = validate_math
  validate_operands Opcode.sub = validate_math
  validate_operands Opcode.mul = validate_math
  validate_operands Opcode.div = validate_math
  validate_operands Opcode.neg = validate_unary
  validate_operands Opcode.abs = validate_unary
  validate_operands _ = false

-- The tag table of a loaded program agrees with the tag section of its image.
abbrev pub Loaded : Impl → Bytes → ℕ → Type 0
Loaded m tags count =
    (id : ℕ)
    → id < count
    → (t : Tag) × (get_elem? m.tag id ≡ some t)
      × (tag_type t ≡ type_byte tags id)
      × (t.storage ≡ storage_byte tags id)

-- In a loaded program, writing a value of a scalar type to an operand that passed the check for a writable tag of
-- that type returns OK.
pub destination-tag_operand :
    (m : Impl) (tags : Bytes) (count : ℕ) (o : Operand) (v : Value)
    → Loaded m tags count
    → tag_operand o tags count (type_of v) true ≡ true
    → type_of v ≤ 3
    → (destination m o v).0 ≡ ok
unfolding tag_operand destination
destination-tag_operand m tags count o v l h k =
    let (t, e, ty, st) = l o.word (ground arith) in
    let same : type_of v ≡ tag_type t = ground (arith, ty) in
    let written : (put m o.word v).0 ≡ ok =
      (put-ok_iff m o.word v).1 (t, e, (ground (arith, st), same, omega (arith, same, k))) in
    ground (arith, written)
