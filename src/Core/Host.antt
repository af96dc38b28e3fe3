-- ===== src/Core/Host.antt =====
-- The calls that a host makes of the runtime, in any order.
pub mod Sound
pub mod Calls
use rsmicro.Prelude.{ℕ, ◌+◌, ◌≡◌, some}
use rsmicro.Core.Words.{Bytes}
use rsmicro.Core.Types.{Status, Value, Hal, Floats, Impl, Runtime}
use rsmicro.Core.Tags.Access.{
  runtime_write_tag, runtime_force_tag, runtime_clear_force, runtime_clear_all_forces,
  runtime_clear_write_trace,
}
use rsmicro.Core.Lifecycle.{init, deinit, prescan, postscan, set_mode, unload_program}
use rsmicro.Core.Scan.{scan}
use rsmicro.Core.Image.Layout.{Sizes}
use rsmicro.Core.Image.Load.{load_image}

module _ {W : Type 0} (z : Sizes) (hal : Hal W) (fl : Floats) where
  -- A call that may change the runtime, whatever it returns. Between two calls the HAL's context may
  -- become anything. Of scans, those of a loaded program are meant, on fuel that is always enough.
  pub data Step (r : Runtime W) : Runtime W → Type 0 where
    load : (x : Bytes) (n : ℕ) → Step r (load_image z r x n).1
    unload : Step r (unload_program r).1
    shut : Step r (deinit r)
    mode : (code : ℕ) → Step r (set_mode r code).1
    before : Step r (prescan r).1
    behind : Step r (postscan r).1
    cycle :
        (m : Impl) (st : Status) (r' : Runtime W)
        → r.impl ≡ some m
        → scan hal fl (m.rungs + 2) r ≡ some (st, r')
        → Step r r'
    write : (id : ℕ) (v : Value) → Step r (runtime_write_tag r id v).1
    force : (id : ℕ) (v : Value) → Step r (runtime_force_tag r id v).1
    release : (id : ℕ) → Step r (runtime_clear_force r id).1
    release_all : Step r (runtime_clear_all_forces r).1
    clear_trace : Step r (runtime_clear_write_trace r).1
    outside : (context : W) → Step r (record r { context = context })

  -- What calls make of a runtime that `rsm_runtime_init` has set up.
  pub data Reachable : Runtime W → Type 0 where
    begun : (arena size : ℕ) (context : W) → Reachable (init arena size context)
    next : {r r' : Runtime W} → Reachable r → Step r r' → Reachable r'
