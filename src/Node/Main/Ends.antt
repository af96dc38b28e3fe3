-- ===== src/Node/Main/Ends.antt =====
-- How `main` of runtime/node/src/main.c ends, and which calls of the system it has made by then.
use Prim.Native.String.{String}
use rsmicro.Prelude.{ℕ, ◌≡◌, ◌%◌, ◌^◌, List, ◌∷◌, ◌++◌, Option, none, some}
use rsmicro.Core.Words.{unsigned32}
use rsmicro.Node.Options.{Options, Parsed, options}
use rsmicro.Node.Main.{
  Os, Event, helped, versioned, no_socket, no_listen, shut_down, opened, closed, listening, Host,
}
use rsmicro.Node.Main.Calls.{
  Call, socket, close, listen, bind, Observer, Warned, Over, Tried, ready_calls,
}

module _ {W D : Type 0} (os : Os W D) (see : Observer os) where
  -- The exit code, the events and the calls of `main` at options `o`, from host `h` on.
  pub data Served (o : Options D) (h : Host W) (code : ℕ) (h' : Host W) : Type 0 where
    failed_socket :
        (log : List Event)
        → Warned o.address h.log log
        → code ≡ 2
        → h'.log ≡ no_socket ∷ log
        → see.calls h'.world ≡ see.calls h.world
        → Served o h code h'
    failed_listen :
        (log : List Event) (fd : ℕ) (made : List Call)
        → Warned o.address h.log log
        → code ≡ 2
        → h'.log ≡ closed fd ∷ no_listen ∷ opened fd ∷ log
        → Tried os see o fd made
        → see.calls h'.world ≡ close fd ∷ made ++ socket fd ∷ see.calls h.world
        → Served o h code h'
    served :
        (log : List Event) (fd address : ℕ) (w : W)
        → Warned o.address h.log log
        → code ≡ 0
        → h'.log ≡ shut_down ∷ closed fd ∷ listening o.address o.port ∷ opened fd ∷ log
        → os.inet_pton o.address ≡ some address
        → see.calls h'.world
          ≡ close fd
            ∷ ready_calls os see o.ready (
                listen fd
                ∷ bind fd address (unsigned32 o.port % 2 ^ 16)
                ∷ socket fd
                ∷ see.calls h.world)
        → h'.world ≡ os.close fd w
        → Over os o w
        → Served o h code h'

  abbrev pub Ends : Parsed D → Host W → ℕ → Host W → Type 0
  Ends Parsed.help h code h' = (code ≡ 0) × (h'.log ≡ helped ∷ h.log) × (h'.world ≡ h.world)
  Ends Parsed.version h code h' = (code ≡ 0) × (h'.log ≡ versioned ∷ h.log) × (h'.world ≡ h.world)
  Ends (options o) h code h' = Served o h code h'

  -- `main` has returned, with a code and a host as described.
  abbrev pub Finishes : (ℕ → Host W → Type 0) → Option (ℕ × Host W) → Type 0
  Finishes P none = ⊥
  Finishes P (some (code, h)) = P code h
