-- ===== src/Node/Main/Calls.antt =====
-- The calls of the system that `main` of runtime/node/src/main.c makes at its socket, and its wait.
use Prim.Native.String.{String}
use text.Mathlib.TextEquality.{eq_iff}
use rsmicro.Prelude.{
  ℕ, zero, suc, ◌≡◌, ◌<◌, ◌≤◌, ◌%◌, ◌^◌, refl, ap, subst, ◌∙◌, Bool, true, false, List, [], ◌∷◌,
  ◌++◌, Option, none, some, Bool-cases, Option-cases, ◌⊎◌, inl, inr, arith,
}
use rsmicro.Prelude.Int.{ℤ, ◌-ℤ◌}
use rsmicro.Core.Words.{unsigned32}
use rsmicro.Node.Options.{Options}
use rsmicro.Node.Main.{
  Timespec, Os, Event, warned, is_loopback, warn, expired, wait, attach, tell_ready,
}

-- A call of the system, with what it was given.
pub data Call : Type 0 where
  socket close listen : ℕ → Call
  bind : ℕ → ℕ → ℕ → Call
  ready : String → Call

-- What an observer of the system sees: every call that concerns the socket or the ready file, the last
-- one first, and no other call.
pub record Observer {W D : Type 0} (os : Os W D) : Type 0 where
  pub calls : W → List Call
  pub no_socket : (w : W) → (os.socket w).0 ≡ none → calls (os.socket w).1 ≡ calls w
  pub socket :
      (w : W) (fd : ℕ) → (os.socket w).0 ≡ some fd → calls (os.socket w).1 ≡ socket fd ∷ calls w
  pub bind :
      (fd address port : ℕ) (w : W)
      → calls (os.bind fd address port w).1 ≡ bind fd address port ∷ calls w
  pub listen : (fd : ℕ) (w : W) → calls (os.listen fd w).1 ≡ listen fd ∷ calls w
  pub close : (fd : ℕ) (w : W) → calls (os.close fd w) ≡ close fd ∷ calls w
  pub ready : (path : String) (w : W) → calls (os.write_ready path w) ≡ ready path ∷ calls w
  pub on_signals : (w : W) → calls (os.on_signals w) ≡ calls w
  pub reuse_address : (fd : ℕ) (w : W) → calls (os.reuse_address fd w) ≡ calls w
  pub clock : (w : W) → calls (os.clock w).1 ≡ calls w
  pub nanosleep : (w : W) → calls (os.nanosleep w) ≡ calls w

-- A signal comes after at most `n` naps: `left` is how many naps there are before it.
pub record Signalled {W D : Type 0} (os : Os W D) (n : ℕ) : Type 0 where
  pub left : W → ℕ
  pub most : (w : W) → left w ≤ n
  pub nap : (w : W) → os.running w ≡ true → left (os.nanosleep w) < left w
  pub clock : (w : W) → left (os.clock w).1 ≤ left w

-- The loopback addresses, and the log after the test of an address.
abbrev pub Loopback : String → Type 0
Loopback address = (address ≡ "127.0.0.1") ⊎ (address ≡ "::1")

pub data Warned (address : String) (before log : List Event) : Type 0 where
  quiet : Loopback address → log ≡ before → Warned address before log
  loud : ¬ Loopback address → log ≡ warned ∷ before → Warned address before log

module _ {W D : Type 0} (os : Os W D) where
  is_loopback-Loopback : (a : String) → is_loopback os a ≡ true → Loopback a
  is_loopback-Loopback a h = ground (arith, eq_iff a "127.0.0.1", eq_iff a "::1")

  Loopback-is_loopback : (a : String) → is_loopback os a ≡ false → ¬ Loopback a
  Loopback-is_loopback a h (inl e) = ground (arith, eq_iff a "127.0.0.1", eq_iff a "::1")
  Loopback-is_loopback a h (inr e) = ground (arith, eq_iff a "127.0.0.1", eq_iff a "::1")

  pub warn-Warned : (o : Options D) (log : List Event) → Warned o.address log (warn os o log)
  warn-Warned o log = elim (Bool-cases (is_loopback os o.address)) [
    | inl c ↦ quiet (is_loopback-Loopback o.address c) (rw c refl)
    | inr c ↦ loud (Loopback-is_loopback o.address c) (rw c refl)
  ]

  -- Why the wait is over in a state: a signal, or the clock at a duration above zero.
  abbrev pub Over : Options D → W → Type 0
  Over o w =
      (os.running w ≡ false)
      ⊎ ((os.positive o.duration ≡ true) × ((s n : ℤ) × (os.reached s n o.duration ≡ true)))

  module _ (see : Observer os) where
    expired-calls :
        (start : Timespec) (o : Options D) (w : W)
        → see.calls (expired os start o w).1 ≡ see.calls w
    expired-calls start o w = elim (Bool-cases (os.positive o.duration)) [
      | inl c ↦ rw c (see.clock w)
      | inr c ↦ rw c refl
    ]

    expired-Over :
        (start : Timespec) (o : Options D) (w w' : W) → (expired os start o w).0 ≡ true → Over o w'
    expired-Over start o w w' h = elim (Bool-cases (os.positive o.duration)) [
      | inl c ↦
          let now = (os.clock w).0 in
          inr (c, (now.tv_sec -ℤ start.tv_sec, now.tv_nsec -ℤ start.tv_nsec, rw c at h))
      | inr c ↦ ground arith
    ]

    -- The socket's calls before it listens and fails: none, a `bind` that fails, or both.
    pub data Tried (o : Options D) (fd : ℕ) (made : List Call) : Type 0 where
      no_address : os.inet_pton o.address ≡ none → made ≡ [] → Tried o fd made
      not_bound :
          (address : ℕ)
          → os.inet_pton o.address ≡ some address
          → made ≡ bind fd address (unsigned32 o.port % 2 ^ 16) ∷ []
          → Tried o fd made
      not_listening :
          (address : ℕ)
          → os.inet_pton o.address ≡ some address
          → made ≡ listen fd ∷ bind fd address (unsigned32 o.port % 2 ^ 16) ∷ []
          → Tried o fd made

    abbrev pub ready_calls : Option String → List Call → List Call
    ready_calls none made = made
    ready_calls (some path) made = ready path ∷ made

    -- What `attach` has done: at the address, bound and listening, or tried.
    pub data Attached (o : Options D) (fd : ℕ) (w : W) (x : Bool × W) : Type 0 where
      attached :
          (address : ℕ)
          → x.0 ≡ true
          → os.inet_pton o.address ≡ some address
          → see.calls x.1 ≡ listen fd ∷ bind fd address (unsigned32 o.port % 2 ^ 16) ∷ see.calls w
          → Attached o fd w x
      tried :
          (made : List Call)
          → x.0 ≡ false
          → Tried o fd made
          → see.calls x.1 ≡ made ++ see.calls w
          → Attached o fd w x

    pub attach-Attached : (o : Options D) (fd : ℕ) (w : W) → Attached o fd w (attach os fd o w)
    unfolding attach
    attach-Attached o fd w = elim (Option-cases (os.inet_pton o.address)) [
      | inl e ↦ rw (e, attach) (tried [] refl (no_address e refl) refl)
      | inr (address, e) ↦
          let port = unsigned32 o.port % 2 ^ 16 in
          let bound = os.bind fd address port w in
          let b = see.bind fd address port w in
          elim (Bool-cases bound.0) [
            | inr c ↦
                rw (e, c, attach)
                  (tried (bind fd address port ∷ []) refl (not_bound address e refl) b)
            | inl c ↦
                let l = see.listen fd bound.1 ∙ ap (λ (k : List Call). listen fd ∷ k) b in
                elim (Bool-cases (os.listen fd bound.1).0) [
                  | inl d ↦ rw (e, c, attach) (attached address d e l)
                  | inr d ↦
                      rw (e, c, attach)
                        (tried (listen fd ∷ bind fd address port ∷ []) d
                          (not_listening address e refl) l)
                ]
          ]
    ]

    pub tell_ready-calls :
        (o : Options D) (w : W) → see.calls (tell_ready os o w) ≡ ready_calls o.ready (see.calls w)
    tell_ready-calls o w = elim (Option-cases o.ready) [
      | inl e ↦ rw e refl
      | inr (path, e) ↦ rw e (see.ready path w)
    ]

    -- What a wait that has enough fuel leaves, from a state with the calls `made` on.
    abbrev pub Waits : Options D → List Call → Option W → Type 0
    Waits o made none = ⊥
    Waits o made (some w') = (see.calls w' ≡ made) × Over o w'

    module _ (n : ℕ) (signal : Signalled os n) where
      expired-left :
          (start : Timespec) (o : Options D) (w : W)
          → signal.left (expired os start o w).1 ≤ signal.left w
      expired-left start o w = elim (Bool-cases (os.positive o.duration)) [
        | inl c ↦ rw c (signal.clock w)
        | inr c ↦ rw c (omega arith)
      ]

      pub wait-Waits :
          (start : Timespec) (o : Options D) (fuel : ℕ) (w : W)
          → signal.left w < fuel
          → Waits o (see.calls w) (wait os fuel start o w)
      unfolding wait
      wait-Waits start o zero w l = absurd (omega arith)
      wait-Waits start o (suc fuel) w l = elim (Bool-cases (os.running w)) [
        | inr c ↦ rw c (refl, inl c)
        | inl c ↦
            let w' = (expired os start o (os.nanosleep w)).1 in
            let same : see.calls w' ≡ see.calls w =
              expired-calls start o (os.nanosleep w) ∙ see.nanosleep w in
            elim (Bool-cases (expired os start o (os.nanosleep w)).0) [
              | inl d ↦ rw (c, d) (same, expired-Over start o (os.nanosleep w) w' d)
              | inr d ↦
                  let less = signal.nap w c in
                  let left = expired-left start o (os.nanosleep w) in
                  let rest = wait-Waits start o fuel w' (omega arith) in
                  rw (c, d) (subst (λ k. Waits o k (wait os fuel start o w')) same rest)
            ]
      ]
