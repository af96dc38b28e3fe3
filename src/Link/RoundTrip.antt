-- ===== src/Link/RoundTrip.antt =====
-- Decoding an encoded frame.
use rsmicro.Prelude.{
  ℕ, zero, suc, ◌+◌, ◌%◌, ◌^◌, ◌≤◌, ◌<◌, ◌≡◌, ap, ◌∙◌, sym, [], ◌∷◌, ◌++◌, some, arith, length,
  take, drop, length-append, true, ◌==◌, ltb, if_ind, ltb→lt, All, refl,
}
use rsmicro.Prelude.Bits.{bit_xor_lt}
use rsmicro.Core.Words.{Bytes, byte, u16, u32}
use rsmicro.Link.Frame.{
  LinkStatus, ok, Frame, header, p16, p32, encode, decode, crc32c, crc_bytes, crc_bits,
  max_payload_size, min_frame_size, has_magic,
}

-- The fields fit their widths, the header flags are 0 or 1, and the payload is made of bytes and
-- not too long.
pub record IsEncodable (f : Frame) : Type 0 where
  pub message_type : f.message_type < 2 ^ 16
  pub message_flags : f.message_flags < 2 ^ 16
  pub request_id : f.request_id < 2 ^ 32
  pub sequence : f.sequence < 2 ^ 32
  pub header_flags : f.header_flags ≤ 1
  pub payload : length f.payload ≤ max_payload_size
  pub bytes : All (λ b. b < 2 ^ 8) f.payload

pub length-header : (f : Frame) → length (header f) ≡ 24
length-header f = refl

-- the frame without its last four bytes
abbrev pub body : Frame → Bytes
body f = header f ++ f.payload

pub length-body : (f : Frame) → length (body f) ≡ 24 + length f.payload
length-body f = omega arith

byte-append : (xs ys : Bytes) (n k : ℕ) → n ≡ length xs → byte (xs ++ ys) (n + k) ≡ byte ys k
byte-append [] ys zero k e = ap (byte ys) (omega arith)
byte-append [] ys (suc n) k e = absurd (omega arith)
byte-append (x ∷ xs) ys zero k e = absurd (omega arith)
byte-append (x ∷ xs) ys (suc n) k e =
    let g : byte (x ∷ xs ++ ys) (suc n + k) ≡ byte (xs ++ ys) (n + k) =
      ap (byte (x ∷ xs ++ ys)) {y = suc (n + k)} (omega arith) in
    g ∙ byte-append xs ys n k (omega arith)

pub take-append : (xs ys : Bytes) (n : ℕ) → n ≡ length xs → take n (xs ++ ys) ≡ xs
take-append [] ys zero e = refl
take-append [] ys (suc n) e = absurd (omega arith)
take-append (x ∷ xs) ys zero e = absurd (omega arith)
take-append (x ∷ xs) ys (suc n) e = ap (λ (l : Bytes). x ∷ l) (take-append xs ys n (omega arith))

p32_value : (v : ℕ) (ys : Bytes) → v < 2 ^ 32 → u32 (p32 v ++ ys) 0 ≡ v
unfolding u32
p32_value v ys h = omega arith

p16_value : (v : ℕ) → v < 2 ^ 16 → u16 (p16 v) 0 ≡ v
unfolding u16
p16_value v h = omega arith

crc_bits_lt : (n c : ℕ) → c < 2 ^ 32 → crc_bits n c < 2 ^ 32
unfolding crc_bits
crc_bits_lt zero c h = h
crc_bits_lt (suc n) c h = crc_bits_lt n _ (
    bit_xor_lt 32 _ _ (omega arith)
      (if_ind (λ x. x < 2 ^ 32) (c % 2 == 1) _ _ (λ _. omega arith) (λ _. omega arith)))

crc_bytes_lt : (ds : Bytes) (c : ℕ) → All (λ b. b < 2 ^ 8) ds → c < 2 ^ 32 → crc_bytes c ds < 2 ^ 32
unfolding crc_bytes
crc_bytes_lt [] c a h = h
crc_bytes_lt (d ∷ ds) c a h =
    crc_bytes_lt ds _ a.1 (crc_bits_lt 8 _ (bit_xor_lt 32 c d h (omega (arith, a.0))))

crc32c_lt : (ds : Bytes) → All (λ b. b < 2 ^ 8) ds → crc32c ds < 2 ^ 32
unfolding crc32c
crc32c_lt ds a = bit_xor_lt 32 _ _ (crc_bytes_lt ds _ a (omega arith)) (omega arith)

p16-bytes : (v : ℕ) (xs : Bytes) → All (λ b. b < 2 ^ 8) xs → All (λ b. b < 2 ^ 8) (p16 v ++ xs)
p16-bytes v xs a = (omega arith, (omega arith, a))

p32-bytes : (v : ℕ) (xs : Bytes) → All (λ b. b < 2 ^ 8) xs → All (λ b. b < 2 ^ 8) (p32 v ++ xs)
p32-bytes v xs a = (omega arith, (omega arith, (omega arith, (omega arith, a))))

body-bytes : (f : Frame) → IsEncodable f → All (λ b. b < 2 ^ 8) (body f)
body-bytes f v =
    let payload : Bytes = p32 (length f.payload) ++ f.payload in
    let sequence : Bytes = p32 f.sequence ++ payload in
    let request : Bytes = p32 f.request_id ++ sequence in
    let fields : Bytes = p16 f.message_flags ++ request in
    let rest : All (λ b. b < 2 ^ 8) (p16 f.message_type ++ fields) =
      p16-bytes f.message_type fields (
        p16-bytes f.message_flags request (
          p32-bytes f.request_id sequence
            (p32-bytes f.sequence payload (p32-bytes (length f.payload) f.payload v.bytes)))) in
    (
      omega arith,
      (
        omega arith,
        (
          omega arith,
          (
            omega arith,
            (omega arith, (omega arith, (omega arith, (omega (arith, v.header_flags), rest)))),
          ),
        ),
      ),
    )

-- the bytes of an encoded frame
abbrev pub image : Frame → Bytes
image f = body f ++ p32 (crc32c (body f))

-- What a buffer has to hold for `decode` to give `f`.
decode_ok :
    (x : Bytes) (n : ℕ) (f : Frame)
    → n ≡ min_frame_size + length f.payload
    → length f.payload ≤ max_payload_size
    → has_magic x ≡ true
    → byte x 7 ≤ 1
    → byte x 4 ≡ 1
    → byte x 5 ≡ 1
    → u32 x 20 ≡ length f.payload
    → u32 x (24 + length f.payload) ≡ crc32c (take (24 + length f.payload) x)
    → record {
      message_type = u16 x 8;
      message_flags = u16 x 10;
      request_id = u32 x 12;
      sequence = u32 x 16;
      header_flags = byte x 7;
      payload = take (length f.payload) (drop 24 x);
    }
      ≡ f
    → decode x n ≡ (ok, some f)
unfolding decode
decode_ok x n f e l m b7 b4 b5 el ec er = ground arith

-- the fields that `decode` reads from a header
header_fields :
    (f : Frame) (x ys : Bytes)
    → IsEncodable f
    → x ≡ header f ++ ys
    → take (length f.payload) ys ≡ f.payload
    → record {
      message_type = u16 x 8;
      message_flags = u16 x 10;
      request_id = u32 x 12;
      sequence = u32 x 16;
      header_flags = byte x 7;
      payload = take (length f.payload) (drop 24 x);
    }
      ≡ f
unfolding u16 u32
header_fields f x ys v e t = rw e (
    cc (
      p16_value f.message_type v.message_type,
      p16_value f.message_flags v.message_flags,
      p32_value f.request_id [] v.request_id,
      p32_value f.sequence [] v.sequence,
      t,
    ))

pub u32-header :
    (f : Frame) (ys : Bytes) → IsEncodable f → u32 (header f ++ ys) 20 ≡ length f.payload
unfolding u32
u32-header f ys v = omega (arith, v.payload)

u32-append : (xs ys : Bytes) (n : ℕ) → n ≡ length xs → u32 (xs ++ ys) n ≡ u32 ys 0
unfolding u32
u32-append xs ys n e =
    let z : byte (xs ++ ys) n ≡ byte ys 0 =
      ap (byte (xs ++ ys)) {y = n + 0} (omega arith) ∙ byte-append xs ys n 0 e in
    rw z (
      rw (byte-append xs ys n 1 e)
        (rw (byte-append xs ys n 2 e) (rw (byte-append xs ys n 3 e) refl)))

-- the bytes of an encoded frame, with `ys` after it
abbrev pub framed : Frame → Bytes → Bytes
framed f ys = body f ++ (p32 (crc32c (body f)) ++ ys)

-- the checksum of an encoded frame is that of its other bytes
checksum :
    (f : Frame) (ys : Bytes) (n : ℕ)
    → IsEncodable f
    → n ≡ 24 + length f.payload
    → u32 (framed f ys) n ≡ crc32c (take n (framed f ys))
checksum f ys n v e =
    let c : Bytes = p32 (crc32c (body f)) ++ ys in
    u32-append (body f) c n (omega (arith, e, length-body f))
    ∙ p32_value _ ys (crc32c_lt (body f) (body-bytes f v))
    ∙ sym (ap crc32c (take-append (body f) c n (omega (arith, e, length-body f))))

pub decode-framed :
    (f : Frame) (ys : Bytes)
    → IsEncodable f
    → decode (framed f ys) (min_frame_size + length f.payload) ≡ (ok, some f)
decode-framed f ys v =
    let tail : Bytes = f.payload ++ (p32 (crc32c (body f)) ++ ys) in
    decode_ok (framed f ys) _ f refl v.payload refl v.header_flags refl refl (u32-header f tail v)
      (checksum f ys _ v refl)
      (header_fields f (framed f ys) tail v refl (take-append f.payload _ _ refl))

pub encode-image :
    (f : Frame) (cap : ℕ)
    → IsEncodable f
    → min_frame_size + length f.payload ≤ cap
    → encode f cap ≡ (ok, image f)
unfolding encode
encode-image f cap v h =
    if_ind (λ (r : LinkStatus × Bytes). r ≡ (ok, image f)) (ltb max_payload_size (length f.payload))
      _ _ (λ e. absurd (omega (arith, ltb→lt _ _ e, v.payload)))
      (λ _.
        if_ind (λ (r : LinkStatus × Bytes). r ≡ (ok, image f))
          (ltb cap (min_frame_size + length f.payload)) _ _
          (λ e. absurd (omega (arith, ltb→lt _ _ e))) (λ _. refl))

pub length-image : (f : Frame) → length (image f) ≡ min_frame_size + length f.payload
length-image f = length-append (body f) (p32 (crc32c (body f))) ∙ omega (arith, length-body f)

-- Encoding a frame whose fields fit, into a buffer that has room for it, returns OK, and decoding
-- the bytes that were written gives the frame back.
pub decode-encode :
    (f : Frame) (cap : ℕ)
    → IsEncodable f
    → min_frame_size + length f.payload ≤ cap
    → let (status, written) = encode f cap in
      (status ≡ ok) × (decode written (length written) ≡ (ok, some f))
decode-encode f cap v h =
    rw (encode-image f cap v h) (refl, rw (length-image f) (decode-framed f [] v))
