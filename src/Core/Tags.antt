-- ===== src/Core/Tags.antt =====
-- The tag store: scalar reads and writes, members of timers and counters, the force overlay and
-- the write trace (runtime/core/src/rsm_runtime.c, `value` to `rsm_runtime_get_write_trace`).
pub mod Force
pub mod Access
pub mod Writes
pub mod Forces
use rsmicro.Prelude.{
  ℕ, ◌+◌, ◌==◌, ltb, leb, if◌then◌else◌, Bool, true, false, not, ◌&&◌, ◌||◌, List, [], ◌∷◌, ◌++◌,
  Option, none, some, length, get_elem?, set,
}
use rsmicro.Core.Types.{
  Status, ok, type_mismatch, tag_not_found, member_not_found, not_writable, Result, ret, err, Value,
  boolean, dint, real, other, type_of, as_boolean, as_dint, as_real, Timer, Counter, Payload, Tag,
  tag_type, payload_type, TraceEntry, Impl, trace_capacity,
}

-- `x ? RSM_TRUE : RSM_FALSE`
abbrev pub truth : ℕ → ℕ
truth x = if x == 0 then 0 else 1

abbrev pub bit : Bool → ℕ
bit c = if c then 1 else 0

-- The backing value of a scalar tag, as `value` reads it.
abbrev pub backing : Payload → Result Value
backing (Payload.b x) = ret (boolean (truth x))
backing (Payload.d x) = ret (dint x)
backing (Payload.f x) = ret (real x)
backing (Payload.timer _) = err type_mismatch
backing (Payload.counter _) = err type_mismatch

-- The force overlay of a tag, over a value.
abbrev pub overlay : Impl → ℕ → Value → Value
overlay m id v = elim (get_elem? m.force id) [
  | none ↦ v
  | some e ↦ if e.enabled then e.value else v
]

-- `value`: the effective value, under the force overlay.
unfoldable pub value : Impl → ℕ → Result Value
value m id = elim (get_elem? m.tag id) [
  | none ↦ err tag_not_found
  | some t ↦ elim (backing t.v) [ ret v ↦ ret (overlay m id v) | err s ↦ err s ]
]

-- The typed store of `put`, for a value of the tag's type.
abbrev pub store : Payload → Value → Option Payload
store (Payload.b _) v = some (Payload.b (truth (as_boolean v)))
store (Payload.d _) v = some (Payload.d (as_dint v))
store (Payload.f _) v = some (Payload.f (as_real v))
store (Payload.timer _) v = none
store (Payload.counter _) v = none

-- The append of `put` to the bounded write trace.
abbrev pub trace_write : List TraceEntry → ℕ → Value → List TraceEntry
trace_write tr id v =
    if ltb (length tr) trace_capacity then tr ++ (record { tag = id; value = v } ∷ []) else tr

unfoldable pub put : Impl → ℕ → Value → Status × Impl
put m id v = elim (get_elem? m.tag id) [
  | none ↦ (tag_not_found, m)
  | some t ↦
      if t.storage == 1
      then (not_writable, m)
      else if not (type_of v == tag_type t)
      then (type_mismatch, m)
      else elim (store t.v v) [
        | none ↦ (type_mismatch, m)
        | some p ↦ (
          ok,
          record m { tag = set m.tag id (record t { v = p }); trace = trace_write m.trace id v },
        )
      ]
]

-- The members that `rsm_runtime_read_member` finds in a timer and in a counter.
abbrev pub timer_member : Timer → ℕ → Result Value
timer_member t member =
    if member == 1
    then ret (dint t.pre)
    else if member == 2
    then ret (dint t.acc)
    else if member == 3
    then ret (boolean (bit t.en))
    else if member == 4
    then ret (boolean (bit t.tt'))
    else if member == 5
    then ret (boolean (bit t.dn))
    else err member_not_found

abbrev pub counter_member : Counter → ℕ → Result Value
counter_member c member =
    if member == 1
    then ret (dint c.pre)
    else if member == 2
    then ret (dint c.acc)
    else if member == 5
    then ret (boolean (bit c.dn))
    else if member == 6
    then ret (boolean (bit c.cu))
    else if member == 7
    then ret (boolean (bit c.cd))
    else if member == 8
    then ret (boolean (bit c.ov))
    else if member == 9
    then ret (boolean (bit c.un))
    else err member_not_found

abbrev pub payload_member : Payload → ℕ → Result Value
payload_member (Payload.timer t) member = timer_member t member
payload_member (Payload.counter c) member = counter_member c member
payload_member _ member = err type_mismatch

-- `rsm_runtime_read_member` on a loaded runtime. No force applies to a member.
unfoldable pub read_member : Impl → ℕ → ℕ → Result Value
read_member m id member = elim (get_elem? m.tag id) [
  | none ↦ err tag_not_found
  | some t ↦ payload_member t.v member
]
