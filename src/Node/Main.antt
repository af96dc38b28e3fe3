-- ===== src/Node/Main.antt =====
-- runtime/node/src/main.c: `main` behind the options. What libc and the system do is a parameter.
pub mod Calls
pub mod Ends
use Prim.Native.String.{String}
use text.Mathlib.Text.{◌==◌}
use rsmicro.Prelude.{
  ℕ, zero, suc, ◌%◌, ◌^◌, if◌then◌else◌, Bool, not, ◌||◌, List, [], ◌∷◌, Option, none, some,
}
use rsmicro.Prelude.Int.{ℤ, ◌-ℤ◌}
use rsmicro.Core.Words.{unsigned32}
use rsmicro.Node.Options.{Options, Parsed, options, parse, defaults}

-- `struct timespec`
pub record Timespec : Type 0 where
  pub tv_sec : ℤ
  pub tv_nsec : ℤ

-- libc and the system over their state `W`; a `double` is a `D`. Of the calls of sockets, `true` and
-- `some` are success. `positive` is `> 0`, and `reached s n d` is
-- `(double)s+(double)n/1000000000.0>=d`.
pub record Os (W D : Type 0) : Type 0 where
  pub atoi : String → ℤ
  pub atof : String → D
  pub zero_point : D
  pub positive : D → Bool
  pub reached : ℤ → ℤ → D → Bool
  pub on_signals : W → W
  pub socket : W → Option ℕ × W
  pub reuse_address : ℕ → W → W
  pub inet_pton : String → Option ℕ
  pub bind : ℕ → ℕ → ℕ → W → Bool × W
  pub listen : ℕ → W → Bool × W
  pub close : ℕ → W → W
  pub write_ready : String → W → W
  pub clock : W → Timespec × W
  pub nanosleep : W → W
  pub running : W → Bool

-- What `main` prints and does with its socket.
pub data Event : Type 0 where
  helped versioned warned no_socket no_listen shut_down : Event
  opened closed : ℕ → Event
  listening : String → ℤ → Event

-- The system's state, and the events up to now, the last one first.
pub record Host (W : Type 0) : Type 0 where
  pub log : List Event
  pub world : W

abbrev pub note : {W : Type 0} → Event → Host W → Host W
note e h = record h { log = e ∷ h.log }

module _ {W D : Type 0} (os : Os W D) where
  abbrev pub is_loopback : String → Bool
  is_loopback a = a == "127.0.0.1" || a == "::1"

  abbrev pub warn : Options D → List Event → List Event
  warn o log = if is_loopback o.address then log else warned ∷ log

  -- The test after a nap, with the clock read only if there is a duration.
  abbrev pub expired : Timespec → Options D → W → Bool × W
  expired start o w =
      let (now, w') = os.clock w in
      if os.positive o.duration
      then (os.reached (now.tv_sec -ℤ start.tv_sec) (now.tv_nsec -ℤ start.tv_nsec) o.duration, w')
      else (Bool.false, w)

  -- `while(running)`, each round on one unit of fuel
  unfoldable pub wait : ℕ → Timespec → Options D → W → Option W
  wait zero start o w = none
  wait (suc fuel) start o w =
      let (over, w') = expired start o (os.nanosleep w) in
      let rest = wait fuel start o w' in
      if os.running w then if over then some w' else rest else some w

  -- `bind` and `listen` at an address that `inet_pton` could read
  unfoldable pub attach : ℕ → Options D → W → Bool × W
  attach fd o w = elim (os.inet_pton o.address) [
    | none ↦ (Bool.false, w)
    | some address ↦
        let (bound, w1) = os.bind fd address (unsigned32 o.port % 2 ^ 16) w in
        if bound then os.listen fd w1 else (Bool.false, w1)
  ]

  abbrev pub tell_ready : Options D → W → W
  tell_ready o w = elim o.ready [ none ↦ w | some path ↦ os.write_ready path w ]

  -- after `listen`: the ready file, the wait and the end
  unfoldable pub run : ℕ → ℕ → Options D → Host W → Option (ℕ × Host W)
  run fuel fd o h =
      let (start, w) = os.clock (tell_ready o h.world) in
      elim (wait fuel start o w) [
        | none ↦ none
        | some w' ↦ some (
          0,
          record {
            log = shut_down ∷ closed fd ∷ listening o.address o.port ∷ h.log;
            world = os.close fd w';
          },
        )
      ]

  -- `main` at the options that were read
  unfoldable pub serve : ℕ → Options D → Host W → Option (ℕ × Host W)
  serve fuel o h =
      let (opening, w) = os.socket (os.on_signals h.world) in
      elim opening [
        | none ↦ some (2, record { log = no_socket ∷ warn o h.log; world = w })
        | some fd ↦
            let (attached, w') = attach fd o (os.reuse_address fd w) in
            let log = opened fd ∷ warn o h.log in
            let served = run fuel fd o (record { log = log; world = w' }) in
            if attached
            then served
            else some (2, record { log = closed fd ∷ no_listen ∷ log; world = os.close fd w' })
      ]

  -- what is done with the options that were read
  abbrev pub act : ℕ → Host W → Parsed D → Option (ℕ × Host W)
  act fuel h Parsed.help = some (0, note helped h)
  act fuel h Parsed.version = some (0, note versioned h)
  act fuel h (options o) = serve fuel o h

  -- The exit code and the state; `argv` is without the program's name.
  unfoldable pub main : ℕ → List String → Host W → Option (ℕ × Host W)
  main fuel argv h = act fuel h (parse os.atoi os.atof argv (defaults os.zero_point))
