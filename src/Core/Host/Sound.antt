-- ===== src/Core/Host/Sound.antt =====
-- What each call of the host keeps: a program that is well coded and well forced.
use rsmicro.Prelude.{
  ◌∙◌, ◌%◌, ◌^◌, ℕ, not, ◌&&◌, ◌≤◌, ◌≡◌, sym, subst, ap, Bool, true, false, some, none, Option, map,
  arith, if_ind,
}
use rsmicro.Core.Words.{Bytes}
use rsmicro.Core.Types.{Status, ok, invalid_argument, Mode, Value, Impl, Runtime}
use rsmicro.Core.Boundary.{IsWellCoded, IsWellCoded-le}
use rsmicro.Core.Frame.{Frame, Fixed, tag_kind}
use rsmicro.Core.Frame.Lifecycle.{lifecycle_outputs-kinds}
use rsmicro.Core.Frame.Onward.{Frame-code, Frame-code_size}
use rsmicro.Core.ForceTypes.{AllFit, IsTyped, force_tag-IsTyped, clear_force-IsTyped}
use rsmicro.Core.Tags.Forces.{IsTallied, enabled_count, force_tag-IsTallied, clear_force-IsTallied}
use rsmicro.Core.Tags.Force.{force_tag, clear_force}
use rsmicro.Core.Tags.Access.{on_loaded}
use rsmicro.Core.Lifecycle.{
  prescan, postscan, run_lifecycle, set_mode, change_mode, enter, unload_program, lifecycle_outputs,
  mode_of, is_active, is_program, is_faulted, is_loaded,
}
use rsmicro.Core.Scan.Ends.{ScanEnd}
use rsmicro.Core.Image.Layout.{Sizes}
use rsmicro.Core.Image.Ready.{Loads}
use rsmicro.Core.Image.Operation.{lifecycle_outputs-SameCode}

-- A program whose instructions are known, whose enabled forces have their tags' types, and whose
-- count of enabled forces is right.
pub record IsSound (m : Impl) : Type 0 where
  pub coded : IsWellCoded m.code m.code_size
  pub typed : IsTyped m
  pub tallied : IsTallied m

-- The same code, or less of it, with the same forces, their count and kinds of tags.
Same-IsSound :
    (m n : Impl)
    → n.code ≡ m.code
    → n.code_size ≤ m.code_size
    → n.force ≡ m.force
    → map tag_kind n.tag ≡ map tag_kind m.tag
    → n.diag.active_force_count ≡ m.diag.active_force_count
    → IsSound m
    → IsSound n
Same-IsSound m n c l f k a s = record {
  coded =
      subst (λ x. IsWellCoded x n.code_size) (sym c)
        (IsWellCoded-le m.code n.code_size m.code_size l s.coded);
  typed =
      subst (AllFit n.force) (sym k) (subst (λ x. AllFit x (map tag_kind m.tag)) (sym f) s.typed);
  tallied = a ∙ subst (λ x. m.diag.active_force_count ≡ enabled_count x % 2 ^ 32) (sym f) s.tallied;
}

pub Frame-IsSound : (m n : Impl) → Frame m n → IsSound m → IsSound n
Frame-IsSound m n f =
    Same-IsSound m n (Frame-code m n f) (omega (arith, Frame-code_size m n f))
      (ap (λ (x : Fixed). x.force) f) (ap (λ (x : Fixed). x.kinds) f)
      (ap (λ (x : Fixed). x.active_force_count) f)

lifecycle_outputs-IsSound :
    (pre : Bool) (m : Impl) → IsSound m → IsSound (lifecycle_outputs pre m).1
lifecycle_outputs-IsSound pre m =
    let (c, z, _) = lifecycle_outputs-SameCode pre m in
    let (f, k, a) = lifecycle_outputs-kinds pre m in
    Same-IsSound m (lifecycle_outputs pre m).1 c (omega arith) f k a

-- of the program that is loaded, if one is
abbrev pub Holds : (Impl → Type 0) → Option Impl → Type 0
Holds P none = Unit
Holds P (some m) = P m

force_tag-code :
    (m : Impl) (id : ℕ) (v : Value)
    → ((force_tag m id v).1.code ≡ m.code) × ((force_tag m id v).1.code_size ≡ m.code_size)
unfolding force_tag
force_tag-code m id v = (ground arith, ground arith)

clear_force-code :
    (m : Impl) (id : ℕ)
    → ((clear_force m id).1.code ≡ m.code) × ((clear_force m id).1.code_size ≡ m.code_size)
unfolding clear_force
clear_force-code m id = (ground arith, ground arith)

-- A force keeps the code.
pub forced : (m : Impl) (id : ℕ) (v : Value) → IsSound m → IsSound (force_tag m id v).1
forced m id v s =
    let (c, l) = force_tag-code m id v in
    record {
      coded =
          subst (λ x. IsWellCoded x (force_tag m id v).1.code_size) (sym c)
            (subst (IsWellCoded m.code) (sym l) s.coded);
      typed = force_tag-IsTyped m id v s.typed;
      tallied = force_tag-IsTallied m id v s.tallied;
    }

pub freed : (m : Impl) (id : ℕ) → IsSound m → IsSound (clear_force m id).1
freed m id s =
    let (c, l) = clear_force-code m id in
    record {
      coded =
          subst (λ x. IsWellCoded x (clear_force m id).1.code_size) (sym c)
            (subst (IsWellCoded m.code) (sym l) s.coded);
      typed = clear_force-IsTyped m id s.typed;
      tallied = clear_force-IsTallied m id s.tallied;
    }

module _ {W : Type 0} where
  abbrev pub Sound : Runtime W → Type 0
  Sound r = Holds IsSound r.impl

  pub on_loaded-Sound :
      (r : Runtime W) (op : Impl → Status × Impl)
      → ((m : Impl) → IsSound m → IsSound (op m).1)
      → Sound r
      → Sound (on_loaded r op).1
  on_loaded-Sound r op h = go r.impl
    where
      go : (o : Option Impl) → Holds IsSound o → Sound (on_loaded (record r { impl = o }) op).1
      go none s = tt
      go (some m) s = h m s

  pub run_lifecycle-Sound : (pre : Bool) (r : Runtime W) → Sound r → Sound (run_lifecycle pre r).1
  run_lifecycle-Sound pre r = go r.impl
    where
      go : (o : Option Impl) → Holds IsSound o → Sound (run_lifecycle pre (record r { impl = o })).1
      go none s = tt
      go (some m) s = lifecycle_outputs-IsSound pre m s

  enter-Sound : (to : Mode) (x : Status × Runtime W) → Sound x.1 → Sound (enter to x).1
  enter-Sound to (ok, r) s = s
  enter-Sound to (_, r) s = s

  change_mode-Sound : (r : Runtime W) (to : Mode) → Sound r → Sound (change_mode r to).1
  unfolding change_mode prescan postscan
  change_mode-Sound r to s =
      let P : Status × Runtime W → Type 0 = λ x. Sound x.1 in
      if_ind P (is_active to && not (is_loaded r)) _ _ (λ _. s)
        λ _.
          if_ind P (is_faulted r.mode && not (is_program to)) _ _ (λ _. s)
            λ _.
              if_ind P (is_active to && is_program r.mode) _ _
                (λ _. enter-Sound to (run_lifecycle true r) (run_lifecycle-Sound true r s))
                λ _.
                  if_ind P (is_program to && is_active r.mode) _ _
                    (λ _. enter-Sound to (run_lifecycle false r) (run_lifecycle-Sound false r s))
                    λ _. s

  pub set_mode-Sound : (r : Runtime W) (code : ℕ) → Sound r → Sound (set_mode r code).1
  unfolding set_mode
  set_mode-Sound r code s = go (mode_of code)
    where
      go :
          (o : Option Mode)
          → Sound
              (elim o as (λ _. Status × Runtime W) [
                | none ↦ (invalid_argument, r)
                | some to ↦ change_mode r to
              ]).1
      go none = s
      go (some to) = change_mode-Sound r to s

  pub unload_program-Sound : (r : Runtime W) → Sound r → Sound (unload_program r).1
  unfolding unload_program
  unload_program-Sound r s =
      if_ind (λ (x : Status × Runtime W). Sound x.1) (is_program r.mode) _ _ (λ _. tt) (λ _. s)

  pub loaded-Sound :
      (z : Sizes) (r : Runtime W) (x : Bytes) (n : ℕ) (l : Status × Runtime W)
      → Loads z r x n l
      → Sound r
      → Sound l.1
  loaded-Sound z r x n (ok, r') (m, e, k, _, _, _) s =
      subst (Holds IsSound) (sym e)
        (record { coded = k.coded; typed = k.typed; tallied = k.tallied })
  loaded-Sound z r x n (_, r') e s = subst Sound (sym e) s

  pub scanned-Sound :
      (r r' : Runtime W) (m : Impl) (st : Status) → ScanEnd r m st r' → IsSound m → Sound r'
  scanned-Sound r r' m st e s =
      subst (Holds IsSound) (sym e.loaded)
        (Same-IsSound m e.m' e.kept.code e.kept.shrinks e.kept.force e.kept.kinds e.kept.active s)
