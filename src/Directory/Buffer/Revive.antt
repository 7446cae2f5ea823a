-- ===== src/Directory/Buffer/Revive.antt =====
-- `DirCheckBuf` (MemSys/directory.c): which requests become ready, and in which order.
use rsim.Prelude.{
  ℕ, ◌+◌, ◌≡◌, ◌∙◌, inl, inr, Bool, not, List, [], ◌∷◌, ◌++◌, append-nil, append_assoc, ◌==◌,
  Bool-cases, if◌then◌else◌, length, arith,
}
use rsim.Directory.{Dir}
use rsim.Directory.Buffer.{check_buf_loop, dir_check_buf}

-- the requests of a list that a test picks, in their order
abbrev pub picked : (ℕ → Bool) → List ℕ → List ℕ
picked f [] = []
picked f (p ∷ ps) = let rest = picked f ps in if f p then p ∷ rest else rest

module _ (tag : ℕ) where
  abbrev pub matches : Dir → ℕ → Bool
  matches d p = (d.reqs p).tag == tag

  abbrev pub differs : Dir → ℕ → Bool
  differs d p = not (matches d p)

  after : Dir → List ℕ → Dir
  after d ps = record d {
    bufsz_rdy = d.bufsz_rdy + length (picked (matches d) ps);
    ready_reqs = d.ready_reqs ++ picked (matches d) ps;
    buf = d.buf ++ picked (differs d) ps;
  }

  check_buf_loop-after : (ps : List ℕ) (d : Dir) → check_buf_loop tag ps d ≡ after d ps
  unfolding check_buf_loop after
  check_buf_loop-after [] d = ground (arith, append-nil d.ready_reqs, append-nil d.buf)
  check_buf_loop-after (p ∷ ps) d = elim (Bool-cases (matches d p)) [
    | inl yes_tag ↦ rw yes_tag (
        check_buf_loop-after ps _
        ∙ ground (arith, append_assoc d.ready_reqs (p ∷ []) (picked (matches d) ps)))
    | inr no_tag ↦ rw no_tag (
        check_buf_loop-after ps _
        ∙ ground (arith, append_assoc d.buf (p ∷ []) (picked (differs d) ps)))
  ]

  -- `DirCheckBuf` makes exactly the pending requests for the line ready, in the order in which they came
  -- and behind those that were ready before, counts them, and leaves the others in the buffer in order.
  pub dir_check_buf_lem :
      (d : Dir)
      → dir_check_buf tag d ≡ record d {
        bufsz_rdy = d.bufsz_rdy + length (picked (matches d) d.buf);
        ready_reqs = d.ready_reqs ++ picked (matches d) d.buf;
        buf = picked (differs d) d.buf;
      }
  unfolding dir_check_buf after
  dir_check_buf_lem d = check_buf_loop-after d.buf (record d { buf = [] })
