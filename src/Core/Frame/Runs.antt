-- ===== src/Core/Frame/Runs.antt =====
-- `run_until` ends within its fuel, never moves back, and keeps the fixed parts.
use rsmicro.Prelude.{
  ℕ, zero, suc, ◌+◌, ◌≤◌, ◌<◌, ◌≡◌, refl, Bool, true, false, some, arith, ltb, ◌||◌, ◌-◌, if_ind,
  not, ltb→lt, subst, leb, ◌==◌, ◌&&◌,
}
use rsmicro.Core.Types.{ok, Floats}
use rsmicro.Core.Boundary.{Boundary, after}
use rsmicro.Core.Frame.Onward.{
  Onward, Ends, Aligned, Aligned-branch, Frame-code_size, Onward-trans, Ends-from, moved,
  continue-Ends, continue-step, branch_fault-Ends, close_lane-Ends, close_branch-Ends,
}
use rsmicro.Core.Frame.Arith.{execute-Frame}
use rsmicro.Core.Outcome.Execute.{execute-Outcome}
use rsmicro.Core.Ranges.Execute.{execute-Ranged}
use rsmicro.Core.Execute.{execute}
use rsmicro.Core.Machine.{decode, instr_size}
use rsmicro.Core.Run.{
  Point, Ran, ◌>>=◌, inside, code_at, forward, continue, close_lane, close_branch, branch_fault,
  run_one, run_until, run_lanes, at_end,
}
use rsmicro.Core.Opcode.{
  branch_begin_code, branch_lane_begin_code, branch_lane_end_code, branch_end_code,
}

module _ {W : Type 0} (now : W → ℕ × W) (fl : Floats) (tick : ℕ) where
  run_one-mode :
      (p : Point W)
      → (run_one now fl tick p).0 ≡ ok
      → (run_one now fl tick p).1.live.mode ≡ p.live.mode
  unfolding run_one
  run_one-mode p h =
      ground (arith, execute-Outcome now fl (decode p.live.m.code p.offset) p.power tick p.live)

  run_one-live :
      (p : Point W)
      → (run_one now fl tick p).1.live
        ≡ (execute now fl (decode p.live.m.code p.offset) p.power tick p.live).live
  unfolding run_one
  run_one-live p = ground arith

  run_one-le : (p : Point W) → p.offset ≤ (run_one now fl tick p).1.offset
  unfolding run_one
  run_one-le p = ground arith

  run_one-Aligned : (p : Point W) → Aligned p (run_one now fl tick p).1
  unfolding run_one
  run_one-Aligned p code e w b =
      let next : Boundary code (p.offset + instr_size p.live.m.code p.offset) =
        after b (rw e refl) in
      ground arith

  run_one-Onward : (p : Point W) → Onward (run_one now fl tick p).0 p (run_one now fl tick p).1
  run_one-Onward p = record {
    frame =
        rw (run_one-live p)
          (execute-Frame now fl (decode p.live.m.code p.offset) p.power tick p.live);
    forth = run_one-le p;
    aligned = run_one-Aligned p;
    mode = run_one-mode p;
    ranged = λ r.
        rw (run_one-live p)
          (execute-Ranged now fl (decode p.live.m.code p.offset) p.power tick p.live r);
  }

  run_one-lt :
      (p : Point W) → (run_one now fl tick p).0 ≡ ok → p.offset < (run_one now fl tick p).1.offset
  unfolding run_one
  run_one-lt p h = ground arith

  -- With this fuel every run ends.
  abbrev Until : ℕ → Type 0
  Until fuel =
      (stop : ℕ) (p : Point W)
      → p.live.m.code_size - p.offset < fuel
      → Ends p (run_until now fl fuel tick stop p)

  abbrev Lanes : ℕ → Type 0
  Lanes fuel =
      (input merged : Bool) (lanes : ℕ) (p : Point W)
      → p.live.m.code_size - p.offset < fuel
      → Ends p (run_lanes now fl fuel tick input merged lanes p)

  -- What comes after a part that has moved on has less code before it.
  after-Ends :
      (fuel stop : ℕ) (p q : Point W)
      → Until fuel
      → p.live.m.code_size - p.offset < suc fuel
      → ltb p.offset p.live.m.code_size ≡ true
      → Onward ok p q
      → p.offset < q.offset
      → Ends q (run_until now fl fuel tick stop q)
  after-Ends fuel stop p q ih h within k o =
      ih stop q (omega (arith, ltb→lt _ _ within, Frame-code_size p.live.m q.live.m k.frame))

  Until-suc : (fuel : ℕ) → Until fuel → Lanes fuel → Until (suc fuel)
  unfolding run_until
  Until-suc fuel ih lanes stop p h =
      if_ind (Ends p) (not (inside p)) _ _
        (λ _. moved (at_end stop) p p refl (omega arith) (λ _ _ _ b. b))
        λ out.
          if_ind (Ends p) (code_at p == stop) (some (ok, p)) _
            (λ _. moved ok p p refl (omega arith) (λ _ _ _ b. b))
            λ _.
              if_ind (Ends p) (code_at p == branch_begin_code) _ _ (λ _. branch (inside_of out))
                λ _.
                  if_ind (Ends p)
                    (leb branch_lane_begin_code (code_at p) && leb (code_at p) branch_end_code)
                    (some (branch_fault now (code_at p) p)) _
                    (λ _. branch_fault-Ends now (code_at p) p) λ _. one (inside_of out)
    where
      inside_of : not (inside p) ≡ false → inside p ≡ true
      inside_of e = ground arith

      p' : Point W
      p' = forward (instr_size p.live.m.code p.offset) p

      branch :
          inside p ≡ true
          → Ends p (
              run_lanes now fl fuel tick p.power false 0 p'
              >>= continue (run_until now fl fuel tick stop))
      branch within =
          let k : Onward ok p p' =
            moved ok p p' refl (omega arith) (λ code e w b. after b (rw e refl)) in
          Ends-from p p' _ k (
            continue-Ends p' _ _ (lanes p.power false 0 p' (omega (arith, ltb→lt _ _ within)))
              (λ q l.
                Ends-from p' q _ l (
                  after-Ends fuel stop p q ih h within (Onward-trans k l)
                    (omega (arith, l.forth)))))

      one :
          inside p ≡ true
          → Ends p (continue (run_until now fl fuel tick stop) (run_one now fl tick p))
      one within =
          continue-step p (run_one now fl tick p) (run_until now fl fuel tick stop)
            (run_one-Onward p)
            (λ e.
              after-Ends fuel stop p (run_one now fl tick p).1 ih h within
                (subst (λ st. Onward st p (run_one now fl tick p).1) e (run_one-Onward p))
                (run_one-lt p e))

  Lanes-suc : (fuel : ℕ) → Until fuel → Lanes fuel → Lanes (suc fuel)
  unfolding run_until
  Lanes-suc fuel ih lanes input merged n p h =
      if_ind (Ends p) (inside p && (code_at p == branch_lane_begin_code)) _ _
        (λ c. lane (ground arith) (ground arith))
        (λ _.
          Ends-from p (record p { power = input })
            (some (close_branch now n merged (record p { power = input })))
            (moved ok p (record p { power = input }) refl (omega arith) (λ _ _ _ b. b))
            (close_branch-Ends now n merged (record p { power = input })))
    where
      p' : Point W
      p' = record p { offset = p.offset + 12; power = input }

      rest : Point W → Ran W
      rest q = run_lanes now fl fuel tick input (merged || q.power) (n + 1) (forward 12 q)

      lane :
          inside p ≡ true
          → 240 ≤ code_at p
          → Ends p
              (run_until now fl fuel tick branch_lane_end_code p' >>= close_lane now input rest)
      lane within at =
          let begun : Aligned p p' = Aligned-branch p p p' (λ _ _ _ b. b) refl within at refl in
          Ends-from p p' _ (moved ok p p' refl (omega arith) begun) (
            close_lane-Ends now p' input rest _
              (ih branch_lane_end_code p' (omega (arith, ltb→lt _ _ within)))
              (λ q l c t.
                let ended : Aligned q (forward 12 q) =
                  Aligned-branch q q (forward 12 q) (λ _ _ _ b. b) refl c t refl in
                Ends-from p' (forward 12 q) _
                  (Onward-trans l (moved ok q (forward 12 q) refl (omega arith) ended))
                  (lanes input (merged || q.power) (n + 1) (forward 12 q) (
                    omega (
                      arith,
                      ltb→lt _ _ within,
                      l.forth,
                      Frame-code_size p.live.m q.live.m l.frame,
                    )))))

  both : (fuel : ℕ) → Until fuel × Lanes fuel
  both zero = (λ stop p h. absurd (omega arith), λ input merged n p h. absurd (omega arith))
  both (suc fuel) = let ih = both fuel in (Until-suc fuel ih.0 ih.1, Lanes-suc fuel ih.0 ih.1)

  -- With more fuel than there are bytes of code left, `run_until` ends, at an offset that is not
  -- before the first one, and is that of an instruction if the first one is and the code is well
  -- coded. The image, the code, the rungs, the forces, the tags' kinds and the
  -- states' slots are as before, ACC of every timer is in range if it was, and the mode is as
  -- before if the run returns OK.
  pub run_until-Ends :
      (fuel stop : ℕ) (p : Point W)
      → p.live.m.code_size - p.offset < fuel
      → Ends p (run_until now fl fuel tick stop p)
  run_until-Ends fuel stop p h = (both fuel).0 stop p h
