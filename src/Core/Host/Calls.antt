-- ===== src/Core/Host/Calls.antt =====
-- What holds of the runtime after any calls of the host.
use rsmicro.Prelude.{
  ◌%◌, ◌^◌, ℕ, suc, ◌+◌, [], ◌<◌, ◌≡◌, subst, true, false, some, get_elem?, arith,
}
use rsmicro.Core.Types.{
  ok, Value, type_of, Tag, tag_type, ret, Hal, Floats, Diagnostics, Mode, Impl, Runtime,
}
use rsmicro.Core.Frame.Instructions.{put-Frame}
use rsmicro.Core.ForceTypes.{clear_all_forces-IsTyped, value-IsTyped}
use rsmicro.Core.Tags.Forces.{enabled_count, clear_all_forces-IsTallied}
use rsmicro.Core.Tags.{put}
use rsmicro.Core.Tags.Force.{force_tag, clear_force, clear_all_forces}
use rsmicro.Core.Tags.Access.{
  runtime_write_tag, runtime_force_tag, runtime_clear_force, runtime_clear_all_forces,
  runtime_clear_write_trace, runtime_read_tag, runtime_get_diagnostics,
}
use rsmicro.Core.Lifecycle.{init, deinit, prescan, postscan}
use rsmicro.Core.Scan.{scan}
use rsmicro.Core.Scan.Ends.{ScanEnds, scan-ScanEnds}
use rsmicro.Core.Scan.TestMode.{silent, scan-silent}
use rsmicro.Core.Image.Layout.{Sizes}
use rsmicro.Core.Image.Load.{load_image}
use rsmicro.Core.Image.Ready.{load_image-Loads}
use rsmicro.Core.Host.{
  Step, load, unload, shut, mode, before, behind, cycle, write, force, release, release_all,
  clear_trace, outside, Reachable, begun, next,
}
use rsmicro.Core.Host.Sound.{
  IsSound, Holds, Sound, Frame-IsSound, on_loaded-Sound, run_lifecycle-Sound, set_mode-Sound,
  unload_program-Sound, loaded-Sound, scanned-Sound, forced, freed,
}

module _ {W : Type 0} (z : Sizes) (hal : Hal W) (fl : Floats) where
  -- a scan of a sound program ends
  scan-Sound :
      (r : Runtime W) (m : Impl) (fuel : ℕ)
      → Sound r
      → r.impl ≡ some m
      → suc m.rungs < fuel
      → ScanEnds r m (scan hal fl fuel r)
  scan-Sound r m fuel s e =
      let t : IsSound m = subst (Holds IsSound) e s in scan-ScanEnds hal fl fuel r m e t.coded

  Step-Sound : (r r' : Runtime W) → Step z hal fl r r' → Sound r → Sound r'
  unfolding deinit runtime_write_tag runtime_force_tag runtime_clear_force runtime_clear_all_forces
      runtime_clear_write_trace prescan postscan clear_all_forces
  Step-Sound r _ (load x n) s =
      loaded-Sound z r x n (load_image z r x n) (load_image-Loads z r x n) s
  Step-Sound r _ unload s = unload_program-Sound r s
  Step-Sound r _ shut s = tt
  Step-Sound r _ (mode code) s = set_mode-Sound r code s
  Step-Sound r _ before s = run_lifecycle-Sound true r s
  Step-Sound r _ behind s = run_lifecycle-Sound false r s
  Step-Sound r r' (cycle m st _ e h) s =
      scanned-Sound r r' m st
        (subst (ScanEnds r m) h (scan-Sound r m (m.rungs + 2) s e (omega arith)))
        (subst (Holds IsSound) e s)
  Step-Sound r _ (write id v) s =
      on_loaded-Sound r (λ m. put m id v) (λ m. Frame-IsSound m (put m id v).1 (put-Frame m id v)) s
  Step-Sound r _ (force id v) s = on_loaded-Sound r (λ m. force_tag m id v) (λ m. forced m id v) s
  Step-Sound r _ (release id) s = on_loaded-Sound r (λ m. clear_force m id) (λ m. freed m id) s
  Step-Sound r _ release_all s =
      on_loaded-Sound r clear_all_forces
        (λ m t. record {
          coded = t.coded;
          typed = clear_all_forces-IsTyped m t.typed;
          tallied = clear_all_forces-IsTallied m;
        })
        s
  Step-Sound r _ clear_trace s =
      on_loaded-Sound r (λ m. (ok, record m { trace = [] }))
        (λ m t. record { coded = t.coded; typed = t.typed; tallied = t.tallied }) s
  Step-Sound r _ (outside context) s = s

  Reachable-Sound : (r : Runtime W) → Reachable z hal fl r → Sound r
  unfolding init
  Reachable-Sound _ (begun arena size context) = tt
  Reachable-Sound r' (next {r} h k) = Step-Sound r r' k (Reachable-Sound r h)

  -- After any calls of the host in any order - loads, mode changes, scans, writes, forces and so on,
  -- whatever they returned - a scan with more fuel than the loaded program has rungs plus one ends,
  -- whatever the HAL does, with the same code, rungs, forces and kinds of tags, and after OK the same
  -- mode and size of the code.
  pub Reachable-scan :
      (r : Runtime W) (m : Impl) (fuel : ℕ)
      → Reachable z hal fl r
      → r.impl ≡ some m
      → suc m.rungs < fuel
      → ScanEnds r m (scan hal fl fuel r)
  Reachable-scan r m fuel h = scan-Sound r m fuel (Reachable-Sound r h)

  -- After any calls of the host in any order, reading a tag of the loaded program gives, if it
  -- returns OK, a value of the tag's own type, forced or not.
  pub Reachable-read_tag :
      (r : Runtime W) (m : Impl) (id : ℕ) (t : Tag) (v : Value)
      → Reachable z hal fl r
      → r.impl ≡ some m
      → get_elem? m.tag id ≡ some t
      → runtime_read_tag r id ≡ ret v
      → type_of v ≡ tag_type t
  unfolding runtime_read_tag
  Reachable-read_tag r m id t v h e g k =
      let s : IsSound m = subst (Holds IsSound) e (Reachable-Sound r h) in
      value-IsTyped m id t v s.typed g (rw e at k)

  -- After any calls of the host in any order, the diagnostics of a loaded program give as
  -- `active_force_count` the number of the forces that are enabled, as a uint32_t.
  pub Reachable-active_force_count :
      (r : Runtime W) (m : Impl) (d : Diagnostics)
      → Reachable z hal fl r
      → r.impl ≡ some m
      → runtime_get_diagnostics r ≡ ret d
      → d.active_force_count ≡ enabled_count m.force % 2 ^ 32
  unfolding runtime_get_diagnostics
  Reachable-active_force_count r m d h e k =
      let s : IsSound m = subst (Holds IsSound) e (Reachable-Sound r h) in
      let g : ret m.diag ≡ ret d = rw e at k in ground (arith, s.tallied, g)

  -- After any calls of the host in any order, a scan in TEST does what it would do with a HAL that has
  -- no output callback, so it writes no output; its fuel is more than the rungs plus one.
  pub Reachable-silent :
      (r : Runtime W) (m : Impl) (fuel : ℕ)
      → Reachable z hal fl r
      → r.impl ≡ some m
      → r.mode ≡ Mode.test
      → suc m.rungs < fuel
      → scan hal fl fuel r ≡ scan (silent hal) fl fuel r
  Reachable-silent r m fuel h e t l =
      let s : IsSound m = subst (Holds IsSound) e (Reachable-Sound r h) in
      scan-silent hal fl fuel r m e t s.coded l
