-- ===== src/Core/Modes.antt =====
-- The mode changes of `rsm_runtime_set_mode`.
use rsmicro.Prelude.{
  ℕ, zero, suc, ◌+◌, ◌≡◌, ◌≢◌, refl, sym, ap, subst, ◌∙◌, Bool, true, false, not, ◌&&◌, ◌||◌,
  if◌then◌else◌, if_ind, none, some, arith, ltb, map, Option-cases, inl, inr,
}
use rsmicro.Core.Types.{
  Status, status_ind, ok, invalid_argument, invalid_state, not_writable, Mode, Impl, Runtime,
}
use rsmicro.Core.Machine.{instr_size}
use rsmicro.Core.Lifecycle.{
  mode_of, is_active, is_program, is_faulted, is_loaded, enter, run_lifecycle, prescan, postscan,
  lifecycle_outputs, change_mode, set_mode, output_write, write_outputs, initial_state, initial_tag,
}

-- What a mode change makes of the loaded program: a prescan on the way from PROGRAM to RUN or TEST,
-- a postscan on the way back, and nothing on any other.
unfoldable pub passed : Mode → Mode → Impl → Impl
passed from to m =
    if is_active to && is_program from
    then (lifecycle_outputs true m).1
    else if is_program to && is_active from
    then (lifecycle_outputs false m).1
    else m

-- Whether a mode change makes a prescan (`true`) or a postscan (`false`).
abbrev pub makes : Bool → Mode → Mode → Bool
makes true from to = is_active to && is_program from
makes false from to = is_program to && is_active from

-- a pass that fails returns NOT_WRITABLE
write_outputs-status :
    (fuel : ℕ) (pre : Bool) (o : ℕ) (m : Impl)
    → (write_outputs fuel pre o m).0 ≢ ok
    → (write_outputs fuel pre o m).0 ≡ not_writable
unfolding write_outputs
write_outputs-status zero pre o m h = absurd (h refl)
write_outputs-status (suc fuel) pre o m h =
    let P : Status × Impl → Type 0 = λ x. x.0 ≢ ok → x.0 ≡ not_writable in
    let r = output_write pre o m in
    let rest = write_outputs-status fuel pre (o + instr_size m.code o) r.1 in
    if_ind P (ltb o m.code_size) _ _ (λ _. status_ind P r.0 _ _ (λ _. rest) (λ _ _. refl))
      (λ _ k. absurd (k refl)) h

lifecycle_outputs-status :
    (pre : Bool) (m : Impl)
    → (lifecycle_outputs pre m).0 ≢ ok
    → (lifecycle_outputs pre m).0 ≡ not_writable
unfolding lifecycle_outputs
lifecycle_outputs-status pre m =
    write_outputs-status m.code_size pre 0
      (record m { state = map (initial_state pre) m.state; tag = map initial_tag m.tag })

module _ {W : Type 0} where
  -- What a mode change that returns OK has done.
  abbrev pub Changed : Runtime W → Mode → Runtime W → Type 0
  Changed r mode r' =
      (r'.mode ≡ mode)
      × ((m : Impl) → r.impl ≡ some m → r'.impl ≡ some (passed r.mode mode m))
      × ((is_active mode && not (is_loaded r)) ≡ false)
      × ((is_faulted r.mode && not (is_program mode)) ≡ false)

  enter-ok :
      (mode : Mode) (x : Status × Runtime W)
      → (enter mode x).0 ≡ ok
      → (enter mode x).1 ≡ record (x.1) { mode = mode }
  enter-ok mode (ok, r) h = refl
  enter-ok mode (_, r) h = cc

  run_lifecycle-impl :
      (pre : Bool) (r : Runtime W) (m : Impl)
      → r.impl ≡ some m
      → (run_lifecycle pre r).1.impl ≡ some (lifecycle_outputs pre m).1
  run_lifecycle-impl pre r m h = ground arith

  change_mode-ok :
      (r : Runtime W) (mode : Mode)
      → (change_mode r mode).0 ≡ ok
      → Changed r mode (change_mode r mode).1
  unfolding change_mode prescan postscan passed
  change_mode-ok r mode h = (
    mode_is,
    λ m e. ground (
      arith,
      run_lifecycle-impl true r m e,
      run_lifecycle-impl false r m e,
      enter-ok mode (run_lifecycle true r),
      enter-ok mode (run_lifecycle false r),
    ),
    ground arith,
    ground arith,
  )
    where
      mode_is : (change_mode r mode).1.mode ≡ mode
      mode_is =
          ground
            (arith, enter-ok mode (run_lifecycle true r), enter-ok mode (run_lifecycle false r))

  -- A mode change that returns OK ends in the mode that was asked for; the loaded program has had a
  -- prescan if this leads from PROGRAM to RUN or TEST, a postscan if it leads back, and is as it was
  -- on any other change. RUN or TEST is entered only with a loaded program, and FAULTED is left only
  -- for PROGRAM.
  pub set_mode-ok :
      (r : Runtime W) (code : ℕ)
      → (set_mode r code).0 ≡ ok
      → (mode : Mode) × (mode_of code ≡ some mode) × Changed r mode (set_mode r code).1
  unfolding set_mode
  set_mode-ok r code h = elim (Option-cases (mode_of code)) [
    | inl e ↦ ground arith
    | inr (mode, e) ↦ (mode, e, ground (arith, change_mode-ok r mode))
  ]

  -- Why a change to the mode of a code fails, and the status and runtime that are left.
  pub data Failure (r : Runtime W) (code : ℕ) (x : Status × Runtime W) : Type 0 where
    no_mode : mode_of code ≡ none → x ≡ (invalid_argument, r) → Failure r code x
    no_program :
        (mode : Mode)
        → mode_of code ≡ some mode
        → (is_active mode || is_active r.mode) ≡ true
        → r.impl ≡ none
        → x ≡ (invalid_state, r)
        → Failure r code x
    still_faulted :
        (mode : Mode)
        → mode_of code ≡ some mode
        → is_faulted r.mode ≡ true
        → is_program mode ≡ false
        → x ≡ (invalid_state, r)
        → Failure r code x
    pass_failed :
        (mode : Mode) (m : Impl) (pre : Bool)
        → mode_of code ≡ some mode
        → r.impl ≡ some m
        → makes pre r.mode mode ≡ true
        → (lifecycle_outputs pre m).0 ≢ ok
        → x ≡ (not_writable, record r { impl = some (lifecycle_outputs pre m).1 })
        → Failure r code x

  enter-fails :
      (mode : Mode) (x : Status × Runtime W)
      → (enter mode x).0 ≢ ok
      → (enter mode x ≡ x) × (x.0 ≢ ok)
  enter-fails mode (ok, r') h = absurd (h refl)
  enter-fails mode (_, r') h = (refl, h)

  module _ (r : Runtime W) (code : ℕ) (mode : Mode) (known : mode_of code ≡ some mode) where
    entered_fails :
        (pre : Bool)
        → makes pre r.mode mode ≡ true
        → (enter mode (run_lifecycle pre r)).0 ≢ ok
        → Failure r code (enter mode (run_lifecycle pre r))
    entered_fails pre c h =
        let (same, bad) = enter-fails mode (run_lifecycle pre r) h in
        elim (Option-cases r.impl) [
          | inl e ↦ no_program mode known (active pre c) e (same ∙ rw e refl)
          | inr (m, e) ↦
              let failed : (lifecycle_outputs pre m).0 ≢ ok = λ k. bad (rw e k) in
              pass_failed mode m pre known e c failed (
                same
                ∙ rw e (
                    ap (λ st. (st, record r { impl = some (lifecycle_outputs pre m).1 }))
                      (lifecycle_outputs-status pre m failed)))
        ]
      where
        active :
            (pre : Bool)
            → makes pre r.mode mode ≡ true
            → (is_active mode || is_active r.mode) ≡ true
        active true c = ground arith
        active false c = ground arith

    change_mode-fails : (change_mode r mode).0 ≢ ok → Failure r code (change_mode r mode)
    unfolding change_mode prescan postscan
    change_mode-fails =
        let P : Status × Runtime W → Type 0 = λ x. x.0 ≢ ok → Failure r code x in
        if_ind P (is_active mode && not (is_loaded r)) _ _
          (λ c _. no_program mode known (ground arith) (unloaded c) refl)
          λ _.
            if_ind P (is_faulted r.mode && not (is_program mode)) _ _
              (λ c _. still_faulted mode known (ground arith) (ground arith) refl)
              λ _. if_ind P (is_active mode && is_program r.mode) _ _ (entered_fails true) λ _.
                if_ind P (is_program mode && is_active r.mode) _ _ (entered_fails false)
                  λ _ h. absurd (h refl)
      where
        unloaded : (is_active mode && not (is_loaded r)) ≡ true → r.impl ≡ none
        unloaded c = elim (Option-cases r.impl) [ inl e ↦ e | inr (m, e) ↦ ground arith ]

  -- A mode change fails in one of these ways, and leaves exactly the runtime described: the code is
  -- of no mode, INVALID_ARGUMENT, or there is no program although RUN or TEST is asked for or left,
  -- or FAULTED is not left for PROGRAM, INVALID_STATE, each time with the runtime as it was; or the
  -- prescan on the way from PROGRAM to RUN or TEST, or the postscan on the way back, failed,
  -- NOT_WRITABLE, and then only the program differs, which is what that pass made of it.
  pub set_mode-fails :
      (r : Runtime W) (code : ℕ) → (set_mode r code).0 ≢ ok → Failure r code (set_mode r code)
  unfolding set_mode
  set_mode-fails r code h = elim (Option-cases (mode_of code)) [
    | inl e ↦ no_mode e (ground arith)
    | inr (mode, e) ↦
        let same : set_mode r code ≡ change_mode r mode = ground arith in
        subst (Failure r code) (sym same)
          (change_mode-fails r code mode e (subst (λ (x : Status × Runtime W). x.0 ≢ ok) same h))
  ]
