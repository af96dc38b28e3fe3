-- ===== src/Core/Snapshot/Complete.antt =====
-- A snapshot shows everything, once and in order.
use rsmicro.Prelude.{
  ℕ, suc, ◌+◌, ◌≡◌, refl, ap, sym, ◌∙◌, Bool, List, [], ◌∷◌, ◌++◌, some, get_elem?, arith, subst,
}
use rsmicro.Core.Words.{u32_max}
use rsmicro.Core.Types.{
  ok, Value, boolean, dint, real, Timer, Counter, Payload, Tag, State, Mode, Diagnostics, Fault,
  Impl,
}
use rsmicro.Core.Tags.{bit, overlay, read_member, payload_member}
use rsmicro.Core.Snapshot.{
  Writer, forced, snapshot_member, snapshot_each, snapshot_composite, snapshot_tag, snapshot_tags,
  snapshot_state, snapshot_each_state, snapshot_states, snapshot_rungs, snapshot_impl,
}

-- A call of one of the callbacks.
pub data Event : Type 0 where
  value_of : ℕ → Value → Value → Bool → Event
  member_of : ℕ → ℕ → Value → Event
  state_of : Mode → Diagnostics → Fault → ℕ → ℕ → ℕ → ℕ → Event
  power_of : ℕ → ℕ → Event

abbrev Log : Type 0
Log = List Event

-- A writer that logs each call and returns OK.
abbrev pub logger : Writer (List Event)
logger = record {
  value = λ c i v e f. (ok, c ++ value_of i v e f ∷ []);
  member = some (λ c i k v. (ok, c ++ member_of i k v ∷ []));
  state =
      some
        (λ c mode g f slot edge valid time. (ok, c ++ state_of mode g f slot edge valid time ∷ []));
  rung_power = some (λ c i p. (ok, c ++ power_of i p ∷ []));
}

-- the members of a timer and of a counter, in the order of their numbers
abbrev pub timer_events : ℕ → Timer → List Event
timer_events i t =
    member_of i 1 (dint t.pre)
    ∷ member_of i 2 (dint t.acc)
    ∷ member_of i 3 (boolean (bit t.en))
    ∷ member_of i 4 (boolean (bit t.tt'))
    ∷ member_of i 5 (boolean (bit t.dn))
    ∷ []

abbrev pub counter_events : ℕ → Counter → List Event
counter_events i c =
    member_of i 1 (dint c.pre)
    ∷ member_of i 2 (dint c.acc)
    ∷ member_of i 5 (boolean (bit c.dn))
    ∷ member_of i 6 (boolean (bit c.cu))
    ∷ member_of i 7 (boolean (bit c.cd))
    ∷ member_of i 8 (boolean (bit c.ov))
    ∷ member_of i 9 (boolean (bit c.un))
    ∷ []

abbrev pub state_events : Impl → Mode → List State → List Event
state_events m mode [] = []
state_events m mode (s ∷ ss) =
    state_of mode m.diag m.fault s.slot (bit s.edge) (bit s.valid) s.time ∷ state_events m mode ss

abbrev pub envelope : Impl → Mode → List State → List Event
envelope m mode [] = state_of mode m.diag m.fault u32_max 0 0 0 ∷ []
envelope m mode (s ∷ ss) = state_events m mode (s ∷ ss)

abbrev pub rung_events : ℕ → List ℕ → List Event
rung_events i [] = []
rung_events i (p ∷ ps) = power_of i p ∷ rung_events (i + 1) ps

module _ (m : Impl) where
  abbrev pub payload_events : ℕ → Payload → List Event
  payload_events i (Payload.b x) =
      value_of i (boolean x) (overlay m i (boolean x)) (forced m i) ∷ []
  payload_events i (Payload.d x) = value_of i (dint x) (overlay m i (dint x)) (forced m i) ∷ []
  payload_events i (Payload.f x) = value_of i (real x) (overlay m i (real x)) (forced m i) ∷ []
  payload_events i (Payload.timer t) = timer_events i t
  payload_events i (Payload.counter c) = counter_events i c

  abbrev pub tag_events : ℕ → List Tag → List Event
  tag_events i [] = []
  tag_events i (t ∷ ts) = payload_events i t.v ++ tag_events (i + 1) ts

append_assoc : (xs ys zs : Log) → (xs ++ ys) ++ zs ≡ xs ++ (ys ++ zs)
append_assoc [] ys zs = refl
append_assoc (x ∷ xs) ys zs = ap (λ l. x ∷ l) (append_assoc xs ys zs)

append-nil : (xs : Log) → xs ++ [] ≡ xs
append-nil [] = refl
append-nil (x ∷ xs) = ap (λ l. x ∷ l) (append-nil xs)

five_events :
    (c : Log) (a b d e f : Event)
    → (((((c ++ a ∷ []) ++ b ∷ []) ++ d ∷ []) ++ e ∷ []) ++ f ∷ []) ≡ c ++ a ∷ b ∷ d ∷ e ∷ f ∷ []
five_events [] a b d e f = refl
five_events (x ∷ c) a b d e f = ap (λ l. x ∷ l) (five_events c a b d e f)

seven_events :
    (c : Log) (a b d e f g h : Event)
    → (((((((c ++ a ∷ []) ++ b ∷ []) ++ d ∷ []) ++ e ∷ []) ++ f ∷ []) ++ g ∷ []) ++ h ∷ [])
      ≡ c ++ a ∷ b ∷ d ∷ e ∷ f ∷ g ∷ h ∷ []
seven_events [] a b d e f g h = refl
seven_events (x ∷ c) a b d e f g h = ap (λ l. x ∷ l) (seven_events c a b d e f g h)

module _ (m : Impl) where
  payload-events :
      (i : ℕ) (p : Payload) (c : Log)
      → ((k : ℕ) → read_member m i k ≡ payload_member p k)
      → snapshot_tag logger m i p c ≡ (ok, c ++ payload_events m i p)
  unfolding snapshot_tag snapshot_composite snapshot_each snapshot_member
  payload-events i (Payload.b x) c h = refl
  payload-events i (Payload.d x) c h = refl
  payload-events i (Payload.f x) c h = refl
  payload-events i (Payload.timer t) c h =
      rw (h 1, h 2, h 3, h 4, h 5) (ap (λ l. (ok, l)) (five_events c _ _ _ _ _))
  payload-events i (Payload.counter t) c h =
      rw (h 1, h 2, h 5, h 6, h 7, h 8, h 9) (ap (λ l. (ok, l)) (seven_events c _ _ _ _ _ _ _))

  snapshot_tag-events :
      (i : ℕ) (t : Tag) (c : Log)
      → get_elem? m.tag i ≡ some t
      → snapshot_tag logger m i t.v c ≡ (ok, c ++ payload_events m i t.v)
  unfolding read_member
  snapshot_tag-events i t c e = payload-events i t.v c (λ k. ground (arith, e))

  snapshot_tags-events :
      (i : ℕ) (ts : List Tag) (c : Log)
      → ((k : ℕ) → get_elem? m.tag (i + k) ≡ get_elem? ts k)
      → snapshot_tags logger m i ts c ≡ (ok, c ++ tag_events m i ts)
  unfolding snapshot_tags
  snapshot_tags-events i [] c h = ap (λ l. (ok, l)) (sym (append-nil c))
  snapshot_tags-events i (t ∷ ts) c h =
      let here : get_elem? m.tag i ≡ some t =
        subst (λ k. get_elem? m.tag k ≡ some t) (omega arith) (h 0) in
      let later : (k : ℕ) → get_elem? m.tag (i + 1 + k) ≡ get_elem? ts k =
        λ k. subst (λ j. get_elem? m.tag j ≡ get_elem? ts k) (omega arith) (h (suc k)) in
      rw (snapshot_tag-events i t c here) (
        snapshot_tags-events (i + 1) ts (c ++ payload_events m i t.v) later
        ∙ ap (λ l. (ok, l)) (append_assoc c (payload_events m i t.v) (tag_events m (i + 1) ts)))

  snapshot_each_state-events :
      (mode : Mode) (ss : List State) (c : Log)
      → snapshot_each_state logger m mode ss c ≡ (ok, c ++ state_events m mode ss)
  unfolding snapshot_each_state snapshot_state
  snapshot_each_state-events mode [] c = ap (λ l. (ok, l)) (sym (append-nil c))
  snapshot_each_state-events mode (s ∷ ss) c =
      snapshot_each_state-events mode ss _ ∙ ap (λ l. (ok, l)) (append_assoc c _ _)

  snapshot_rungs-events :
      (i : ℕ) (ps : List ℕ) (c : Log) → snapshot_rungs logger m i ps c ≡ (ok, c ++ rung_events i ps)
  unfolding snapshot_rungs
  snapshot_rungs-events i [] c = ap (λ l. (ok, l)) (sym (append-nil c))
  snapshot_rungs-events i (p ∷ ps) c =
      snapshot_rungs-events (i + 1) ps _ ∙ ap (λ l. (ok, l)) (append_assoc c _ _)

  snapshot_states-events :
      (mode : Mode) (ss : List State) (c : Log)
      → snapshot_states logger m mode ss c ≡ (ok, c ++ envelope m mode ss)
  unfolding snapshot_states snapshot_state
  snapshot_states-events mode [] c = refl
  snapshot_states-events mode (s ∷ ss) c = snapshot_each_state-events mode (s ∷ ss) c

  -- A snapshot by a writer that logs every call and returns OK returns OK, and its log is: for every
  -- tag in order its value with the effective value and the force flag, or all members of the timer
  -- or counter; then every state record with the mode, the diagnostics and the fault, or one
  -- envelope if there is none; then the power of every rung.
  pub snapshot-events :
      (mode : Mode) (log : Log)
      → snapshot_impl logger m mode log ≡ (
        ok,
        log ++ (tag_events m 0 m.tag ++ envelope m mode m.state ++ rung_events 0 m.rung_power),
      )
  unfolding snapshot_impl
  snapshot-events mode log =
      rw
        (
          snapshot_tags-events 0 m.tag log (λ k. ap (get_elem? m.tag) (omega arith)),
          snapshot_states-events mode m.state (log ++ tag_events m 0 m.tag),
          snapshot_rungs-events 0 m.rung_power
              ((log ++ tag_events m 0 m.tag) ++ envelope m mode m.state),
        )
        (ap (λ l. (ok, l))
          (append_assoc (log ++ a) b c
            ∙ (append_assoc log a (b ++ c) ∙ ap (λ l. log ++ l) (sym (append_assoc a b c)))))
    where
      a : Log
      a = tag_events m 0 m.tag

      b : Log
      b = envelope m mode m.state

      c : Log
      c = rung_events 0 m.rung_power
