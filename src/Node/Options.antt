-- ===== src/Node/Options.antt =====
-- runtime/node/src/main.c: the options of rsm-node.
use Prim.Native.String.{String}
use text.Mathlib.Text.{◌==◌}
use rsmicro.Prelude.{
  if◌then◌else◌, Bool, true, false, ◌||◌, List, [], ◌∷◌, ◌++◌, Option, none, some, ◌≡◌, refl, ap,
  ◌∙◌,
}
use rsmicro.Prelude.Int.{ℤ, pos}

-- The variables of `main` that the options set; a `double` is a `D`.
pub record Options (D : Type 0) : Type 0 where
  pub address : String
  pub ready : Option String
  pub port : ℤ
  pub duration : D

-- What the loop over `argv` ends with.
pub data Parsed (D : Type 0) : Type 0 where
  help version : Parsed D
  options : Options D → Parsed D

-- The comparisons of one argument. `skipped` is an option whose value is passed over.
pub data Key : Type 0 where
  help version listen port ready_file run_duration skipped other : Key

unfoldable pub key : String → Key
key a =
    if a == "--help"
    then Key.help
    else if a == "--version"
    then Key.version
    else if a == "--listen"
    then Key.listen
    else if a == "--port"
    then Key.port
    else if a == "--ready-file"
    then Key.ready_file
    else if a == "--run-duration"
    then Key.run_duration
    else if a == "--program"
        || a == "--deployment"
        || a == "--scan-period-ms"
        || a == "--start-mode"
        || a == "--max-clients"
        || a == "--max-frame-size"
        || a == "--transfer-timeout-ms"
        || a == "--log-level"
        || a == "--test-mode-output-policy"
    then Key.skipped
    else Key.other

module _ {D : Type 0} (atoi : String → ℤ) (atof : String → D) where
  -- The loop over `argv[i]`. An option with a value needs `i+1<argc`, and reads `argv[++i]`.
  unfoldable pub parse : List String → Options D → Parsed D
  parse [] o = options o
  parse (a ∷ []) o = elim (key a) [
    | Key.help ↦ Parsed.help
    | Key.version ↦ Parsed.version
    | _ ↦ options o
  ]
  parse (a ∷ b ∷ rest) o = elim (key a) [
    | Key.help ↦ Parsed.help
    | Key.version ↦ Parsed.version
    | Key.listen ↦ parse rest (record o { address = b })
    | Key.port ↦ parse rest (record o { port = atoi b })
    | Key.ready_file ↦ parse rest (record o { ready = some b })
    | Key.run_duration ↦ parse rest (record o { duration = atof b })
    | Key.skipped ↦ parse rest o
    | Key.other ↦ parse (b ∷ rest) o
  ]

-- The values at the beginning of `main`; `zero` is 0.0.
abbrev pub defaults : {D : Type 0} → D → Options D
defaults zero = record { address = "127.0.0.1"; ready = none; port = pos 7580; duration = zero }

-- The options that take a value, and how they are written.
pub data OptionName : Type 0 where
  listen port ready_file run_duration program deployment scan_period_ms : OptionName
  start_mode max_clients max_frame_size transfer_timeout_ms log_level : OptionName
  test_mode_output_policy : OptionName

abbrev pub spelling : OptionName → String
spelling OptionName.listen = "--listen"
spelling OptionName.port = "--port"
spelling OptionName.ready_file = "--ready-file"
spelling OptionName.run_duration = "--run-duration"
spelling OptionName.program = "--program"
spelling OptionName.deployment = "--deployment"
spelling OptionName.scan_period_ms = "--scan-period-ms"
spelling OptionName.start_mode = "--start-mode"
spelling OptionName.max_clients = "--max-clients"
spelling OptionName.max_frame_size = "--max-frame-size"
spelling OptionName.transfer_timeout_ms = "--transfer-timeout-ms"
spelling OptionName.log_level = "--log-level"
spelling OptionName.test_mode_output_policy = "--test-mode-output-policy"

-- Options with their values, as arguments.
abbrev pub arguments : List (OptionName × String) → List String
arguments [] = []
arguments ((name, value) ∷ ss) = spelling name ∷ value ∷ arguments ss

-- the value that is given last to the option written `name`
abbrev pub last_of : String → List (OptionName × String) → Option String
last_of name [] = none
last_of name ((n, value) ∷ ss) = elim (last_of name ss) [
  | some later ↦ some later
  | none ↦ if spelling n == name then some value else none
]

-- what is read of a value, or what was there before
abbrev pub value_or {ℓ} : {A : Type ℓ} → (String → A) → A → Option String → A
value_or read before none = before
value_or read before (some value) = read value

value_or-last_of {ℓ} :
    {A : Type ℓ} (read : String → A) (before : A) (name : String) (n : OptionName) (value : String)
    (ss : List (OptionName × String))
    → value_or read (if spelling n == name then read value else before) (last_of name ss)
      ≡ value_or read before (last_of name ((n, value) ∷ ss))
value_or-last_of read before name n value ss = by_cases (last_of name ss) (spelling n == name)
  where
    by_cases :
        (later : Option String) (same : Bool)
        → value_or read (if same then read value else before) later
          ≡ value_or read before
              (elim later [ some w ↦ some w | none ↦ if same then some value else none ])
    by_cases none true = refl
    by_cases none false = refl
    by_cases (some w) same = refl

module _ {D : Type 0} (atoi : String → ℤ) (atof : String → D) where
  -- The variables after these options: each of the four has what its own option was last given.
  abbrev pub settled : List (OptionName × String) → Options D → Options D
  settled ss o = record {
    address = value_or (λ v. v) o.address (last_of "--listen" ss);
    ready = value_or (λ v. some v) o.ready (last_of "--ready-file" ss);
    port = value_or atoi o.port (last_of "--port" ss);
    duration = value_or atof o.duration (last_of "--run-duration" ss);
  }

  -- one option of the loop
  abbrev assigned : OptionName → String → Options D → Options D
  assigned n v o = record {
    address = if spelling n == "--listen" then v else o.address;
    ready = if spelling n == "--ready-file" then some v else o.ready;
    port = if spelling n == "--port" then atoi v else o.port;
    duration = if spelling n == "--run-duration" then atof v else o.duration;
  }

  settled-assigned :
      (n : OptionName) (v : String) (ss : List (OptionName × String)) (o : Options D)
      → settled ss (assigned n v o) ≡ settled ((n, v) ∷ ss) o
  settled-assigned n v ss o i = record {
    address = value_or-last_of (λ v. v) o.address "--listen" n v ss i;
    ready = value_or-last_of (λ v. some v) o.ready "--ready-file" n v ss i;
    port = value_or-last_of atoi o.port "--port" n v ss i;
    duration = value_or-last_of atof o.duration "--run-duration" n v ss i;
  }

  parse-spelling :
      (n : OptionName) (v : String) (rest : List String) (o : Options D)
      → parse atoi atof (spelling n ∷ v ∷ rest) o ≡ parse atoi atof rest (assigned n v o)
  unfolding parse key
  parse-spelling OptionName.listen v rest o = refl
  parse-spelling _ v rest o = refl

  parse-settled :
      (ss : List (OptionName × String)) (rest : List String) (o : Options D)
      → parse atoi atof (arguments ss ++ rest) o ≡ parse atoi atof rest (settled ss o)
  parse-settled [] rest o = refl
  parse-settled ((n, v) ∷ ss) rest o =
      parse-spelling n v (arguments ss ++ rest) o
      ∙ parse-settled ss rest (assigned n v o)
      ∙ ap (parse atoi atof rest) (settled-assigned n v ss o)

  parse-help :
      (rest : List String) (o : Options D) → parse atoi atof ("--help" ∷ rest) o ≡ Parsed.help
  unfolding parse key
  parse-help [] o = refl
  parse-help (b ∷ rest) o = refl

  parse-version :
      (rest : List String) (o : Options D) → parse atoi atof ("--version" ∷ rest) o ≡ Parsed.version
  unfolding parse key
  parse-version [] o = refl
  parse-version (b ∷ rest) o = refl

  parse-valueless :
      (n : OptionName) (o : Options D) → parse atoi atof (spelling n ∷ []) o ≡ options o
  unfolding parse key
  parse-valueless OptionName.listen o = refl
  parse-valueless _ o = refl

  -- After any of the thirteen options that take a value, each with a value, whatever it is, the loop
  -- goes on with the arguments behind them. The address, the ready file, the port and the duration are
  -- then the last values of --listen, --ready-file, --port (by atoi) and --run-duration (by atof), and
  -- as before where there is none; the other nine set nothing. A --help or --version behind them ends
  -- the loop, and an option whose value is missing at the end sets nothing.
  pub parse-arguments :
      (ss : List (OptionName × String)) (rest : List String) (o : Options D) (n : OptionName)
      → (parse atoi atof (arguments ss ++ rest) o ≡ parse atoi atof rest (settled ss o))
        × (parse atoi atof (arguments ss ++ "--help" ∷ rest) o ≡ Parsed.help)
        × (parse atoi atof (arguments ss ++ "--version" ∷ rest) o ≡ Parsed.version)
        × (parse atoi atof (arguments ss ++ spelling n ∷ []) o ≡ options (settled ss o))
  parse-arguments ss rest o n = (
    parse-settled ss rest o,
    parse-settled ss ("--help" ∷ rest) o ∙ parse-help rest (settled ss o),
    parse-settled ss ("--version" ∷ rest) o ∙ parse-version rest (settled ss o),
    parse-settled ss (spelling n ∷ []) o ∙ parse-valueless n (settled ss o),
  )
