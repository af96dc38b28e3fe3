-- ===== src/Node/Tests.antt =====
-- The options and the main function of rsm-node on concrete arguments.
use Prim.Native.String.{String}
use rsmicro.Prelude.{
  ℕ, ◌≡◌, refl, ltb, not, if◌then◌else◌, Bool, true, false, List, [], ◌∷◌, ◌++◌, some,
}
use rsmicro.Prelude.Int.{pos}
use rsmicro.Node.Options.{
  Parsed, key, parse, defaults, OptionName, spelling, arguments, settled, parse-arguments,
}
use rsmicro.Node.Main.{
  Os, Host, main, serve, run, attach, wait, shut_down, closed, listening, opened, warned,
}
use rsmicro.Node.Main.Calls.{Call}
use rsmicro.Node.Main.Ends.{Ends}

-- A system whose first nap is ended by a signal, and which notes its calls.
record World : Type 0 where
  calls : List Call
  stopped : Bool

abbrev called : Call → World → World
called c w = record w { calls = c ∷ w.calls }

abbrev os : Os World ℕ
os = record {
  atoi = λ s. pos 502;
  atof = λ s. 2;
  zero_point = 0;
  positive = λ d. ltb 0 d;
  reached = λ s n d. false;
  on_signals = λ w. w;
  socket = λ w. (some 3, called (Call.socket 3) w);
  reuse_address = λ fd w. w;
  inet_pton = λ a. some 167772161;
  bind = λ fd a p w. (true, called (Call.bind fd a p) w);
  listen = λ fd w. (true, called (Call.listen fd) w);
  close = λ fd w. called (Call.close fd) w;
  write_ready = λ path w. called (Call.ready path) w;
  clock = λ w. (record { tv_sec = pos 5; tv_nsec = pos 0 }, w);
  nanosleep = λ w. record w { stopped = true };
  running = λ w. not w.stopped;
}

abbrev naps_left : World → ℕ
naps_left w = if w.stopped then 0 else 1

abbrev argv : List String
argv = "--listen" ∷ "10.0.0.1" ∷ "--program" ∷ "p.rsm" ∷ "--listen" ∷ "10.0.0.2" ∷ []

abbrev begun : Host World
begun = record { log = []; world = record { calls = []; stopped = false } }

abbrev given : List (OptionName × String)
given =
    (OptionName.listen, "10.0.0.1")
    ∷ (OptionName.program, "--help")
    ∷ (OptionName.listen, "10.0.0.2")
    ∷ []

parse-arguments_example :
    (parse os.atoi os.atof (arguments given ++ "--json-logs" ∷ []) (defaults 0)
      ≡ parse os.atoi os.atof ("--json-logs" ∷ []) (settled os.atoi os.atof given (defaults 0)))
    × (parse os.atoi os.atof (arguments given ++ "--help" ∷ "--json-logs" ∷ []) (defaults 0)
        ≡ Parsed.help)
    × (parse os.atoi os.atof (arguments given ++ "--version" ∷ "--json-logs" ∷ []) (defaults 0)
        ≡ Parsed.version)
    × (parse os.atoi os.atof (arguments given ++ spelling OptionName.port ∷ []) (defaults 0)
        ≡ Parsed.options (settled os.atoi os.atof given (defaults 0)))
parse-arguments_example =
    parse-arguments os.atoi os.atof given ("--json-logs" ∷ []) (defaults 0) OptionName.port

-- the last address counts, and is warned about
served_events :
    main os 2 argv begun
    ≡ some (
      0,
      record {
        log = shut_down ∷ closed 3 ∷ listening "10.0.0.2" (pos 7580) ∷ opened 3 ∷ warned ∷ [];
        world = record {
          calls = Call.close 3 ∷ Call.listen 3 ∷ Call.bind 3 167772161 7580 ∷ Call.socket 3 ∷ [];
          stopped = true;
        };
      },
    )
unfolding main serve run attach wait parse key
served_events = refl
