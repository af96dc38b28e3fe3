-- ===== src/Link/Stream.antt =====
-- protocol/c/src/rsm_link_stream.c and rsm_link_stream.h.
use rsmicro.Prelude.{
  ℕ, ◌+◌, ◌-◌, ◌%◌, ◌^◌, ltb, leb, if◌then◌else◌, Bool, true, false, ◌||◌, [], ◌++◌, Option, none,
  length, drop,
}
use rsmicro.Core.Words.{Bytes, u32}
use rsmicro.Link.Frame.{
  LinkStatus, ok, incomplete, bad_frame, limit, Frame, decode, min_frame_size, max_frame_size,
}

-- `rsm_link_stream_t`: `held` is the first `length` bytes of the storage.
pub record Stream : Type 0 where
  pub capacity : ℕ
  pub held : Bytes
  pub failed : Bool

unfoldable pub init : ℕ → Stream
init n = record { capacity = n; held = []; failed = false }

unfoldable pub reset : Stream → Stream
reset s = record s { held = []; failed = false }

-- `RSM_LINK_MIN_FRAME_SIZE + u32(s->storage + 20)`, a uint32_t sum
abbrev pub frame_total : Bytes → ℕ
frame_total held = (min_frame_size + u32 held 20) % 2 ^ 32

abbrev pub fail : LinkStatus → Stream → LinkStatus × Option Frame × Stream
fail status s = (status, none, record s { failed = true })

-- The decoding of a complete frame; `failed` is set unless it is OK.
abbrev pub decoded : Stream → LinkStatus × Option Frame → LinkStatus × Option Frame × Stream
decoded s (ok, f) = (ok, f, s)
decoded s (status, f) = (status, f, record s { failed = true })

-- What follows the copy into the storage.
unfoldable pub feed_held : Stream → LinkStatus × Option Frame × Stream
feed_held s =
    if ltb (length s.held) 24
    then (incomplete, none, s)
    else if ltb s.capacity (frame_total s.held) || ltb max_frame_size (frame_total s.held)
    then fail limit s
    else if ltb (length s.held) (frame_total s.held)
    then (incomplete, none, s)
    else decoded s (decode s.held (frame_total s.held))

-- `rsm_link_stream_feed`. `held` never outgrows the capacity, so the subtraction is exact.
unfoldable pub feed : Stream → Bytes → LinkStatus × Option Frame × Stream
feed s d =
    if s.failed
    then (bad_frame, none, s)
    else if ltb (s.capacity - length s.held) (length d)
    then fail limit s
    else feed_held (record s { held = s.held ++ d })

-- `rsm_link_stream_consume`
unfoldable pub consume : Stream → Frame → Stream
consume s f =
    let n = (min_frame_size + length f.payload) % 2 ^ 32 in
    if leb n (length s.held) then record s { held = drop n s.held } else s
