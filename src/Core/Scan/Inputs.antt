-- ===== src/Core/Scan/Inputs.antt =====
-- What the input pass keeps.
use rsmicro.Prelude.{
  ℕ, zero, suc, ◌+◌, ◌≡◌, refl, ◌∙◌, ◌==◌, not, true, some, none, Option, if_ind, arith, get_elem?,
  if◌then◌else◌,
}
use rsmicro.Core.Types.{
  Status, ok, faulted, Value, Payload, payload_type, Tag, tag_type, type_of, Hal, Live,
  FaultCategory, Diagnostics,
}
use rsmicro.Core.Machine.{set_payload}
use rsmicro.Core.Frame.{Frame-set_tag}
use rsmicro.Core.Ranges.{payload_ranged, tags_ranged-set, tags_ranged-get_elem?}
use rsmicro.Core.Scan.{
  Passed, input_payload, current_input, read_one, input_step, scan_inputs, scan_fault,
}
use rsmicro.Core.Scan.Rungs.{Kept, Kept-trans, Kept-fails}
use rsmicro.Core.Scan.Loop.{Kept-refl, scan_fault-Kept}

input_payload-type : (p : Payload) (v : Value) → payload_type (input_payload p v) ≡ payload_type p
input_payload-type p v = ground arith

input_payload-ranged :
    (p : Payload) (v : Value) → payload_ranged p ≡ true → payload_ranged (input_payload p v) ≡ true
input_payload-ranged p v h = ground arith

module _ {W : Type 0} where
  -- a new payload of the same type
  set_payload-Kept :
      (s : Live W) (i : ℕ) (t : Tag) (p : Payload)
      → get_elem? s.m.tag i ≡ some t
      → payload_type p ≡ payload_type t.v
      → (payload_ranged t.v ≡ true → payload_ranged p ≡ true)
      → Kept ok s (set_payload s i t p)
  set_payload-Kept s i t p h e r = record {
    code = refl;
    rungs = refl;
    kinds = Frame-set_tag s.m i t p h e;
    force = refl;
    shrinks = omega arith;
    active = refl;
    ranged = λ x.
        tags_ranged-set s.m.tag i (record t { v = p }) x
          (r (tags_ranged-get_elem? s.m.tag i t x h));
    size = λ _. refl;
    mode = λ _. refl;
  }

  abbrev pub StepKept : Live W → Passed W → Type 0
  StepKept s r = Kept r.0 s r.1

  -- the HAL's context may change at any time
  pub with_context-Kept :
      {st : Status} (s t : Live W) (context : W)
      → Kept st (record s { context = context }) t
      → Kept st s t
  with_context-Kept s t context h = record {
    code = h.code;
    rungs = h.rungs;
    kinds = h.kinds;
    force = h.force;
    shrinks = h.shrinks;
    active = h.active;
    ranged = h.ranged;
    size = h.size;
    mode = h.mode;
  }

  -- of the diagnostics, only the count of the forces is kept
  pub diagnosed-Kept :
      {st : Status} (s t : Live W) (g : Diagnostics) (context : W)
      → g.active_force_count ≡ s.m.diag.active_force_count
      → Kept st (record s { m = record (s.m) { diag = g }; context = context }) t
      → Kept st s t
  diagnosed-Kept s t g context e h = record {
    code = h.code;
    rungs = h.rungs;
    kinds = h.kinds;
    force = h.force;
    shrinks = h.shrinks;
    active = h.active ∙ e;
    ranged = h.ranged;
    size = h.size;
    mode = h.mode;
  }

  -- one round of a loop, and the rest of it
  pub round-Kept :
      (s : Live W) (r rest : Passed W)
      → StepKept s r
      → StepKept r.1 rest
      → StepKept s (elim r.0 [ ok ↦ rest | _ ↦ (faulted, r.1) ])
  round-Kept s (ok, t) rest h k = Kept-trans h k
  round-Kept s (_, t) rest h k = Kept-fails h

module _ {W : Type 0} (hal : Hal W) where
  read_one-Kept :
      (read : W → ℕ → Value → Status × Value × W) (s : Live W) (i : ℕ) (t : Tag)
      → get_elem? s.m.tag i ≡ some t
      → StepKept s (read_one hal read s i t)
  unfolding read_one scan_fault
  read_one-Kept read s i t h =
      let (st, v, context) = read s.context i (current_input hal s i t) in ended st v context
    where
      ended :
          (st : Status) (v : Value) (context : W)
          → let s' = record s { context = context } in
            StepKept s (elim st [
              | ok ↦
                  if not (type_of v == tag_type t)
                  then scan_fault hal s' FaultCategory.hal 2 "INPUT_TYPE" i
                  else (ok, set_payload s' i t (input_payload t.v v))
              | _ ↦ scan_fault hal s' FaultCategory.hal 1 "INPUT" i
            ])
      ended ok v context =
          let s' = record s { context = context } in
          if_ind (StepKept s) (not (type_of v == tag_type t)) _ _
            (λ _.
              with_context-Kept s _ context
                (scan_fault-Kept hal s' FaultCategory.hal 2 "INPUT_TYPE" i))
            (λ _. with_context-Kept s _ context (
              set_payload-Kept s' i t (input_payload t.v v) h (input_payload-type t.v v)
                (input_payload-ranged t.v v)))
      ended _ v context =
          with_context-Kept s _ context
            (scan_fault-Kept hal (record s { context = context }) FaultCategory.hal 1 "INPUT" i)

  input_step-Kept : (i : ℕ) (s : Live W) → StepKept s (input_step hal i s)
  unfolding input_step
  input_step-Kept i s = reads hal.read_input
    where
      one :
          (read : W → ℕ → Value → Status × Value × W) (x : Option Tag)
          → get_elem? s.m.tag i ≡ x
          → StepKept s (elim x [
            | none ↦ (ok, s)
            | some t ↦ if t.storage == 1 then read_one hal read s i t else (ok, s)
          ])
      one read none e = Kept-refl s
      one read (some t) e =
          if_ind (StepKept s) (t.storage == 1) _ _ (λ _. read_one-Kept read s i t e)
            (λ _. Kept-refl s)

      reads :
          (x : Option (W → ℕ → Value → Status × Value × W))
          → StepKept s (elim x [
            | none ↦ (ok, s)
            | some read ↦ elim (get_elem? s.m.tag i) [
              | none ↦ (ok, s)
              | some t ↦ if t.storage == 1 then read_one hal read s i t else (ok, s)
            ]
          ])
      reads none = Kept-refl s
      reads (some read) = one read (get_elem? s.m.tag i) refl

  pub scan_inputs-Kept : (left i : ℕ) (s : Live W) → StepKept s (scan_inputs hal left i s)
  unfolding scan_inputs
  scan_inputs-Kept zero i s = Kept-refl s
  scan_inputs-Kept (suc left) i s =
      round-Kept s (input_step hal i s) _ (input_step-Kept i s)
        (scan_inputs-Kept left (i + 1) (input_step hal i s).1)
