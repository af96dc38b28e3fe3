-- ===== src/Core/Scan/Stops.antt =====
-- Where a run that returns OK has stopped.
use rsmicro.Prelude.{
  ℕ, zero, suc, ◌≡◌, ◌≤◌, ◌&&◌, ◌==◌, leb, not, false, true, some, none, if_ind, arith,
}
use rsmicro.Core.Types.{ok, Floats}
use rsmicro.Core.Words.{Bytes}
use rsmicro.Core.Machine.{instr_size}
use rsmicro.Core.Boundary.{Boundary, IsWellCoded}
use rsmicro.Core.Frame.Onward.{Onward, Frame-code, Frame-code_size}
use rsmicro.Core.Opcode.{branch_begin_code, branch_lane_begin_code, branch_end_code}
use rsmicro.Core.Run.{
  Point, Ran, ◌>>=◌, inside, code_at, continue, run_until, run_lanes, run_one, branch_fault, at_end,
  forward,
}

module _ {W : Type 0} where
  -- A run that returns OK is past the code or at an instruction with the opcode `stop`.
  abbrev pub StopsAt : ℕ → Ran W → Type 0
  StopsAt stop (some (ok, q)) = (inside q && not (code_at q == stop)) ≡ false
  StopsAt stop _ = Unit {0}

  continue-StopsAt :
      (stop : ℕ) (r : Ran W) (go : Point W → Ran W)
      → ((q : Point W) → StopsAt stop (go q))
      → StopsAt stop (r >>= continue go)
  continue-StopsAt stop none go h = tt
  continue-StopsAt stop (some (ok, q)) go h = h q
  continue-StopsAt stop (some (_, q)) go h = tt

  -- In well-coded code no instruction has opcode 0, so a rung's run goes up to its end.
  pub reaches_end :
      (code : Bytes) (p q : Point W)
      → p.live.m.code ≡ code
      → IsWellCoded code p.live.m.code_size
      → Boundary code p.offset
      → Onward ok p q
      → StopsAt 0 (some (ok, q))
      → p.live.m.code_size ≤ q.offset
  reaches_end code p q e w b k h =
      let known = w.known q.offset (k.aligned code e w b) in
      ground (
        arith,
        known,
        Frame-code p.live.m q.live.m k.frame,
        Frame-code_size p.live.m q.live.m k.frame,
      )

module _ {W : Type 0} (now : W → ℕ × W) (fl : Floats) (tick : ℕ) where
  pub run_until-StopsAt :
      (fuel stop : ℕ) (p : Point W) → StopsAt stop (run_until now fl fuel tick stop p)
  unfolding run_until branch_fault
  run_until-StopsAt zero stop p = tt
  run_until-StopsAt (suc fuel) stop p =
      let ih = run_until-StopsAt fuel stop in
      if_ind (StopsAt stop) (not (inside p)) _ _ ended λ _.
        if_ind (StopsAt stop) (code_at p == stop) _ _ (λ c. ground arith)
          λ _.
            if_ind (StopsAt stop) (code_at p == branch_begin_code) _ _
              (λ _.
                continue-StopsAt stop
                  (run_lanes now fl fuel tick p.power false 0
                    (forward (instr_size p.live.m.code p.offset) p))
                  _ ih)
              λ _.
                if_ind (StopsAt stop)
                  (leb branch_lane_begin_code (code_at p) && leb (code_at p) branch_end_code) _ _
                  (λ _. tt) (λ _. continue-StopsAt stop (some (run_one now fl tick p)) _ ih)
    where
      ended : not (inside p) ≡ true → StopsAt stop (some (at_end stop, p))
      ended c = ground arith
