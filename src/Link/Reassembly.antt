-- ===== src/Link/Reassembly.antt =====
-- A stream gives the frames that it is fed, however the bytes are cut.
use rsmicro.Prelude.{
  ℕ, ◌+◌, ◌-◌, ◌%◌, ◌^◌, ◌≤◌, ◌≡◌, zero, suc, ◌∷◌, refl, ap, ◌∙◌, sym, Bool, true, false, ◌||◌, [],
  ◌++◌, Option, some, length, drop, arith, ltb, leb, length-append, if_ind, ltb→lt,
}
use mathlib.Core.List.{append_assoc}
use rsmicro.Core.Words.{Bytes}
use rsmicro.Link.Frame.{
  LinkStatus, ok, incomplete, Frame, encode, decode, p32, crc32c, min_frame_size, max_frame_size,
}
use rsmicro.Link.Stream.{Stream, feed, feed_held, consume, frame_total, decoded}
use rsmicro.Link.RoundTrip.{
  body, length-body, IsEncodable, image, framed, decode-framed, encode-image, u32-header,
  length-image,
}

-- A stream that waits for more bytes has only taken in the ones that it was fed.
abbrev Waits : Stream → LinkStatus × Option Frame × Stream → Type 0
Waits s r = r.0 ≡ incomplete → r.2.failed ≡ false → r.2 ≡ s

decoded-Waits : (s : Stream) (r : LinkStatus × Option Frame) → Waits s (decoded s r)
decoded-Waits s (ok, f) h k = refl
decoded-Waits s (_, f) h k = cc

feed_held-Waits : (s : Stream) → Waits s (feed_held s)
unfolding feed_held
feed_held-Waits s =
    if_ind (Waits s) (ltb (length s.held) 24) _ _ (λ _ _ _. refl)
      (λ _.
        if_ind (Waits s)
          (ltb s.capacity (frame_total s.held) || ltb max_frame_size (frame_total s.held)) _ _
          (λ _ h k. cc)
          (λ _.
            if_ind (Waits s) (ltb (length s.held) (frame_total s.held)) _ _ (λ _ _ _. refl)
              (λ _. decoded-Waits s (decode s.held (frame_total s.held)))))

-- A feed that the storage has room for.
feed-open :
    (s : Stream) (d : Bytes)
    → s.failed ≡ false
    → length s.held + length d ≤ s.capacity
    → feed s d ≡ feed_held (record s { held = s.held ++ d })
unfolding feed
feed-open s d o h =
    let P : LinkStatus × Option Frame × Stream → Type 0 =
      λ r. r ≡ feed_held (record s { held = s.held ++ d }) in
    if_ind P s.failed _ _ (λ e. absurd (Bool-apart e o))
      (λ _.
        if_ind P (ltb (s.capacity - length s.held) (length d)) _ _
          (λ e. absurd (omega (arith, ltb→lt _ _ e))) (λ _. refl))
  where
    Bool-apart : {x : Bool} → x ≡ true → x ≡ false → ⊥
    Bool-apart p q = cc

-- When a stream that has not failed waits for more bytes after a feed, and its storage has room for the next ones,
-- feeding them gives what feeding all of the bytes at once gives.
pub feed-feed :
    (s : Stream) (xs ys : Bytes)
    → s.failed ≡ false
    → length s.held + length xs + length ys ≤ s.capacity
    → (feed s xs).0 ≡ incomplete
    → (feed s xs).2.failed ≡ false
    → feed (feed s xs).2 ys ≡ feed s (xs ++ ys)
feed-feed s xs ys o r h k =
    let s₁ : Stream = record s { held = s.held ++ xs } in
    let first : feed s xs ≡ feed_held s₁ = feed-open s xs o (omega arith) in
    let kept : (feed_held s₁).2 ≡ s₁ = feed_held-Waits s₁ (rw (sym first) h) (rw (sym first) k) in
    rw first (
      rw kept (
        feed-open s₁ ys o (omega (arith, length-append s.held xs))
        ∙ rw (append_assoc s.held xs ys) refl
        ∙ sym (feed-open s (xs ++ ys) o (omega (arith, length-append xs ys)))))

framed-image : (f : Frame) (ys : Bytes) → image f ++ ys ≡ framed f ys
framed-image f ys = append_assoc (body f) (p32 (crc32c (body f))) ys

frame_total-framed :
    (f : Frame) (ys : Bytes)
    → IsEncodable f
    → frame_total (framed f ys) ≡ min_frame_size + length f.payload
frame_total-framed f ys v =
    omega (arith, u32-header f (f.payload ++ (p32 (crc32c (body f)) ++ ys)) v, v.payload)

length-framed :
    (f : Frame) (ys : Bytes) → length (framed f ys) ≡ min_frame_size + length f.payload + length ys
length-framed f ys =
    length-append (body f) (p32 (crc32c (body f)) ++ ys) ∙ omega (arith, length-body f)

feed_held-decodes :
    (s : Stream) (f : Frame) (n : ℕ)
    → frame_total s.held ≡ n
    → min_frame_size ≤ n
    → n ≤ max_frame_size
    → n ≤ length s.held
    → length s.held ≤ s.capacity
    → decode s.held n ≡ (ok, some f)
    → feed_held s ≡ (ok, some f, s)
unfolding feed_held
feed_held-decodes s f n t lo hi l c d =
    let P : LinkStatus × Option Frame × Stream → Type 0 = λ r. r ≡ (ok, some f, s) in
    let total = frame_total s.held in
    if_ind P (ltb (length s.held) 24) _ _ (λ e. absurd (omega (arith, ltb→lt _ _ e)))
      (λ _.
        if_ind P (ltb s.capacity total || ltb max_frame_size total) _ _
          (λ e. absurd (ground (arith, e, t)))
          (λ _.
            if_ind P (ltb (length s.held) total) _ _ (λ e. absurd (omega (arith, ltb→lt _ _ e, t)))
              (λ _. ap (λ k. decoded s (decode s.held k)) t ∙ ap (decoded s) d)))

feed_held-framed :
    (s : Stream) (f : Frame) (ys : Bytes)
    → IsEncodable f
    → s.held ≡ framed f ys
    → length s.held ≤ s.capacity
    → feed_held s ≡ (ok, some f, s)
feed_held-framed s f ys v e h =
    feed_held-decodes s f (min_frame_size + length f.payload)
      (ap frame_total e ∙ frame_total-framed f ys v) (omega arith) (omega (arith, v.payload))
      (omega (arith, ap (λ (x : Bytes). length x) e, length-framed f ys)) h
      (ap (λ (x : Bytes). decode x (min_frame_size + length f.payload)) e ∙ decode-framed f ys v)

drop-append : (xs ys : Bytes) (n : ℕ) → n ≡ length xs → drop n (xs ++ ys) ≡ ys
drop-append [] ys zero e = refl
drop-append [] ys (suc n) e = absurd (omega arith)
drop-append (x ∷ xs) ys zero e = absurd (omega arith)
drop-append (x ∷ xs) ys (suc n) e = drop-append xs ys n (omega arith)

consume-framed :
    (s : Stream) (f : Frame) (ys : Bytes)
    → IsEncodable f
    → s.held ≡ framed f ys
    → consume s f ≡ record s { held = ys }
unfolding consume
consume-framed s f ys v e =
    let n = (min_frame_size + length f.payload) % 2 ^ 32 in
    if_ind (λ (r : Stream). r ≡ record s { held = ys }) (leb n (length s.held)) _ _
      (λ _.
        ap (λ (x : Bytes). record s { held = x })
          (ap (drop n) (e ∙ sym (framed-image f ys))
            ∙ drop-append (image f) ys n (omega (arith, length-image f, v.payload))))
      (λ b.
        absurd (ground (arith, b, ap (λ (x : Bytes). length x) e, length-framed f ys, v.payload)))

-- When the bytes that a stream holds and those that it is fed begin with an encoded frame whose fields fit, the stream
-- has not failed and its storage has room for the bytes, the feed returns OK and the frame,
-- and consuming the frame leaves exactly the bytes that follow it.
pub feed-image :
    (s : Stream) (d : Bytes) (f : Frame) (ys : Bytes)
    → IsEncodable f
    → s.failed ≡ false
    → length s.held + length d ≤ s.capacity
    → s.held ++ d ≡ (encode f max_frame_size).1 ++ ys
    → let (status, out, s') = feed s d in
      (status ≡ ok) × (out ≡ some f) × (consume s' f ≡ record s { held = ys })
feed-image s d f ys v o r e =
    let s₁ : Stream = record s { held = s.held ++ d } in
    let written : (encode f max_frame_size).1 ≡ image f =
      ap (λ r. r.1) (encode-image f max_frame_size v (omega (arith, v.payload))) in
    let whole : s.held ++ d ≡ framed f ys = e ∙ rw written (framed-image f ys) in
    let done : feed s d ≡ (ok, some f, s₁) =
      feed-open s d o r
      ∙ feed_held-framed s₁ f ys v whole (omega (arith, length-append s.held d, r)) in
    rw done (refl, refl, consume-framed s₁ f ys v whole)
