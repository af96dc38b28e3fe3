-- ===== src/Core/Frame/Onward.antt =====
-- How the end of a part of `run_until` stands to its beginning.
use rsmicro.Prelude.{
  ℕ, ◌+◌, ◌≤◌, ◌≡◌, refl, ◌∙◌, ap, sym, Bool, true, some, none, arith, subst, if_ind, not, ◌==◌,
  ◌||◌, ltb→lt,
}
use rsmicro.Core.Types.{ok, faulted, Live, Status, Impl}
use rsmicro.Core.Words.{Bytes, byte}
use rsmicro.Core.Frame.{Frame, Fixed, fixed}
use rsmicro.Core.Boundary.{Boundary, IsWellCoded, Boundary-branch}
use rsmicro.Core.Ranges.{Ranged, tags_ranged}
use rsmicro.Core.Machine.{fail}
use rsmicro.Core.Run.{
  Point, Ran, ◌>>=◌, inside, code_at, continue, close_lane, close_branch, branch_fault,
}
use rsmicro.Core.Opcode.{branch_begin_code, branch_lane_end_code, branch_end_code}

pub Frame-code_size : (m n : Impl) → Frame m n → n.code_size ≡ m.code_size
Frame-code_size m n h = ap (λ (x : Fixed). x.code_size) h

pub Frame-code : (m n : Impl) → Frame m n → n.code ≡ m.code
Frame-code m n h = ap (λ (x : Fixed). x.code) h

module _ {W : Type 0} where
  -- An instruction begins at the offset of `q` if one does at that of `p`.
  abbrev pub Aligned : Point W → Point W → Type 0
  Aligned p q =
      (code : Bytes)
      → p.live.m.code ≡ code
      → IsWellCoded code p.live.m.code_size
      → Boundary code p.offset
      → Boundary code q.offset

  -- The end `q` of a part is not before its beginning `p` and at an instruction's beginning, with
  -- the program as it was, the timers in range, and in the same mode if the part returned OK.
  pub record Onward (st : Status) (p q : Point W) : Type 0 where
    pub frame : Frame p.live.m q.live.m
    pub forth : p.offset ≤ q.offset
    pub aligned : Aligned p q
    pub mode : st ≡ ok → q.live.mode ≡ p.live.mode
    pub ranged : Ranged p.live.m → Ranged q.live.m

  -- The run has ended.
  abbrev pub Ends : Point W → Ran W → Type 0
  Ends p none = ⊥
  Ends p (some (st, q)) = Onward st p q

  pub Onward-trans : {st : Status} {p q t : Point W} → Onward ok p q → Onward st q t → Onward st p t
  Onward-trans {p = p} {q = q} h k = record {
    frame = k.frame ∙ h.frame;
    forth = omega arith;
    aligned = λ code e w b.
        k.aligned code (Frame-code p.live.m q.live.m h.frame ∙ e)
          (subst (IsWellCoded code) (sym (Frame-code_size p.live.m q.live.m h.frame)) w)
          (h.aligned code e w b);
    mode = λ e. k.mode e ∙ h.mode refl;
    ranged = λ r. k.ranged (h.ranged r);
  }

  -- the same runtime, further on
  pub moved :
      (st : Status) (p q : Point W)
      → q.live ≡ p.live
      → p.offset ≤ q.offset
      → Aligned p q
      → Onward st p q
  moved st p q e o a = record {
    frame = ap (λ (s : Live W). fixed s.m) e;
    forth = o;
    aligned = a;
    mode = λ _. ap (λ (s : Live W). s.mode) e;
    ranged = λ r. rw (ap (λ (s : Live W). tags_ranged s.m.tag) e) r;
  }

  pub Ends-from : (p q : Point W) (r : Ran W) → Onward ok p q → Ends q r → Ends p r
  Ends-from p q none h e = e
  Ends-from p q (some (st, t)) h e = Onward-trans h e

  pub stopped : {st : Status} {p q : Point W} → Onward st p q → Onward faulted p q
  stopped h = record {
    frame = h.frame;
    forth = h.forth;
    aligned = h.aligned;
    mode = λ e. cc;
    ranged = h.ranged;
  }

  pub continue-Ends :
      (p : Point W) (go : Point W → Ran W) (r : Ran W)
      → Ends p r
      → ((q : Point W) → Onward ok p q → Ends p (go q))
      → Ends p (r >>= continue go)
  continue-Ends p go none e k = e
  continue-Ends p go (some (ok, q)) e k = k q e
  continue-Ends p go (some (_, q)) e k = stopped e

  pub continue-step :
      (p : Point W) (r : Status × Point W) (go : Point W → Ran W)
      → Onward r.0 p r.1
      → (r.0 ≡ ok → Ends r.1 (go r.1))
      → Ends p (continue go r)
  continue-step p (ok, q) go h k = Ends-from p q _ h (k refl)
  continue-step p (_, q) go h k = stopped h

  -- Twelve bytes on from a branch instruction another one begins.
  pub Aligned-branch :
      (p q t : Point W)
      → Aligned p q
      → Frame p.live.m q.live.m
      → inside q ≡ true
      → 240 ≤ code_at q
      → t.offset ≡ q.offset + 12
      → Aligned p t
  Aligned-branch p q t a f c h k code e w b =
      Boundary-branch code q.live.m.code_size q.offset t.offset
        (subst (IsWellCoded code) (sym (Frame-code_size p.live.m q.live.m f)) w) (a code e w b)
        (ltb→lt _ _ c) (subst (λ x. 240 ≤ byte x q.offset) (Frame-code p.live.m q.live.m f ∙ e) h) k

module _ {W : Type 0} (now : W → ℕ × W) where
  pub branch_fault-Ends : (op : ℕ) (p : Point W) → Ends p (some (branch_fault now op p))
  unfolding branch_fault fail
  branch_fault-Ends op p = record {
    frame = refl;
    forth = omega arith;
    aligned = λ _ _ _ b. b;
    mode = λ e. cc;
    ranged = λ r. r;
  }

  pub close_lane-Ends :
      (p : Point W) (input : Bool) (rest : Point W → Ran W) (r : Ran W)
      → Ends p r
      → ((q : Point W) → Onward ok p q → inside q ≡ true → 240 ≤ code_at q → Ends p (rest q))
      → Ends p (r >>= close_lane now input rest)
  unfolding close_lane
  close_lane-Ends p input rest none e k = e
  close_lane-Ends p input rest (some (ok, q)) e k =
      if_ind (Ends p) (not (inside q) || not (code_at q == branch_lane_end_code)) _ _
        (λ _.
          Ends-from p (record q { power = input })
            (some (branch_fault now branch_begin_code (record q { power = input })))
            (Onward-trans e
              (moved ok q (record q { power = input }) refl (omega arith) (λ _ _ _ b. b)))
            (branch_fault-Ends branch_begin_code (record q { power = input })))
        (λ c. k q e (ground arith) (ground arith))
  close_lane-Ends p input rest (some (_, q)) e k = record {
    frame = e.frame;
    forth = e.forth;
    aligned = e.aligned;
    mode = λ h. cc;
    ranged = e.ranged;
  }

  pub close_branch-Ends :
      (lanes : ℕ) (merged : Bool) (p : Point W) → Ends p (some (close_branch now lanes merged p))
  unfolding close_branch
  close_branch-Ends lanes merged p =
      if_ind (λ r. Ends p (some r))
        (lanes == 0 || not (inside p) || not (code_at p == branch_end_code)) _ _
        (λ _. branch_fault-Ends branch_begin_code p)
        (λ c.
          let next = record p { offset = p.offset + 12; power = merged } in
          moved ok p next refl (omega arith)
            (Aligned-branch p p next (λ _ _ _ b. b) refl (ground arith) (ground arith) refl))
