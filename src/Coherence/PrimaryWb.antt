-- ===== src/Coherence/PrimaryWb.antt =====
-- `Primary_WB`, the table of a write-back L1 cache (MemSys/setup_cohe.c).
use rsim.Prelude.{◌+◌, false, true, List, [], ◌∷◌}
use rsim.Req.{
  bad_req_type, read, write, rmw, l1write_prefetch, l1read_prefetch, l2write_prefetch,
  l2read_prefetch, reply_sh, reply_excl, reply_upgrade, reply_excldy, copyback, copyback_invl, invl,
  wrb, repl, bad_line_state, invalid, pr_cl, sh_cl, pr_dy,
}
use rsim.Coherence.Table.{Config, Call, call, CoheTable, setup}

primary_wb_calls : Config → List Call
primary_wb_calls c =
    call read invalid bad_line_state read c.req_sz (c.line_sz + c.req_sz) bad_req_type 0 false
    ∷ call read pr_cl pr_cl bad_req_type 0 0 bad_req_type 0 false
    ∷ call read sh_cl sh_cl bad_req_type 0 0 bad_req_type 0 false
    ∷ call read pr_dy pr_dy bad_req_type 0 0 bad_req_type 0 false
    ∷ call write invalid bad_line_state write c.req_sz (c.line_sz + c.req_sz) bad_req_type 0 false
    ∷ call write pr_cl pr_dy bad_req_type 0 0 bad_req_type 0 false
    ∷ call write sh_cl bad_line_state write c.req_sz c.req_sz bad_req_type 0 false
    ∷ call write pr_dy pr_dy bad_req_type 0 0 bad_req_type 0 false
    ∷ call rmw invalid bad_line_state rmw c.req_sz (c.line_sz + c.req_sz) bad_req_type 0 false
    ∷ call rmw pr_cl pr_dy bad_req_type 0 0 bad_req_type 0 false
    ∷ call rmw sh_cl bad_line_state rmw c.req_sz c.req_sz bad_req_type 0 false
    ∷ call rmw pr_dy pr_dy bad_req_type 0 0 bad_req_type 0 false
    ∷ call l1write_prefetch invalid bad_line_state l1write_prefetch c.req_sz (c.line_sz + c.req_sz)
        bad_req_type 0 false
    ∷ call l1write_prefetch pr_cl pr_cl bad_req_type 0 0 bad_req_type 0 false
    ∷ call l1write_prefetch sh_cl bad_line_state l1write_prefetch c.req_sz c.req_sz bad_req_type 0
        false
    ∷ call l1write_prefetch pr_dy pr_dy bad_req_type 0 0 bad_req_type 0 false
    ∷ call l1read_prefetch invalid bad_line_state l1read_prefetch c.req_sz (c.line_sz + c.req_sz)
        bad_req_type 0 false
    ∷ call l1read_prefetch pr_cl pr_cl bad_req_type 0 0 bad_req_type 0 false
    ∷ call l1read_prefetch sh_cl sh_cl bad_req_type 0 0 bad_req_type 0 false
    ∷ call l1read_prefetch pr_dy pr_dy bad_req_type 0 0 bad_req_type 0 false
    ∷ call l2write_prefetch invalid invalid l2write_prefetch c.req_sz c.req_sz bad_req_type 0 true
    ∷ call l2write_prefetch pr_cl pr_cl bad_req_type 0 0 bad_req_type 0 false
    ∷ call l2write_prefetch sh_cl sh_cl l2write_prefetch c.req_sz c.req_sz bad_req_type 0 false
    ∷ call l2write_prefetch pr_dy pr_dy bad_req_type 0 0 bad_req_type 0 false
    ∷ call l2read_prefetch invalid invalid l2read_prefetch c.req_sz c.req_sz bad_req_type 0 true
    ∷ call l2read_prefetch pr_cl pr_cl bad_req_type 0 0 bad_req_type 0 false
    ∷ call l2read_prefetch sh_cl sh_cl bad_req_type 0 0 bad_req_type 0 false
    ∷ call l2read_prefetch pr_dy pr_dy bad_req_type 0 0 bad_req_type 0 false
    ∷ call reply_sh invalid sh_cl bad_req_type 0 0 bad_req_type 0 false
    ∷ call reply_excl invalid pr_cl bad_req_type 0 0 bad_req_type 0 false
    ∷ call reply_excl sh_cl pr_cl bad_req_type 0 0 bad_req_type 0 false
    ∷ call reply_excldy invalid pr_cl bad_req_type 0 0 bad_req_type 0 false
    ∷ call reply_upgrade invalid pr_cl bad_req_type 0 0 bad_req_type 0 false
    ∷ call reply_upgrade sh_cl pr_cl bad_req_type 0 0 bad_req_type 0 false
    ∷ call copyback invalid invalid copyback c.req_sz c.req_sz bad_req_type 0 false
    ∷ call copyback pr_cl sh_cl copyback c.req_sz c.req_sz bad_req_type 0 false
    ∷ call copyback sh_cl sh_cl copyback c.req_sz c.req_sz bad_req_type 0 false
    ∷ call copyback pr_dy sh_cl copyback (c.line_sz + c.req_sz) (c.line_sz + c.req_sz) bad_req_type
        0 false
    ∷ call copyback_invl invalid invalid copyback_invl c.req_sz c.req_sz bad_req_type 0 false
    ∷ call copyback_invl pr_cl invalid copyback_invl c.req_sz c.req_sz bad_req_type 0 false
    ∷ call copyback_invl sh_cl invalid copyback_invl c.req_sz c.req_sz bad_req_type 0 false
    ∷ call copyback_invl pr_dy invalid copyback_invl (c.line_sz + c.req_sz) (c.line_sz + c.req_sz)
        bad_req_type 0 false
    ∷ call invl invalid invalid invl c.req_sz c.req_sz bad_req_type 0 false
    ∷ call invl pr_cl invalid invl c.req_sz c.req_sz bad_req_type 0 false
    ∷ call invl sh_cl invalid invl c.req_sz c.req_sz bad_req_type 0 false
    ∷ call invl pr_dy invalid invl c.req_sz c.req_sz bad_req_type 0 false
    ∷ call repl invalid invalid bad_req_type 0 0 bad_req_type 0 false
    ∷ call repl pr_cl invalid bad_req_type 0 0 bad_req_type 0 false
    ∷ call repl sh_cl invalid bad_req_type 0 0 bad_req_type 0 false
    ∷ call repl pr_dy invalid wrb (c.line_sz + c.req_sz) c.req_sz bad_req_type 0 false
    ∷ []

unfoldable pub primary_wb : Config → CoheTable
unfolding primary_wb_calls
primary_wb c = setup (primary_wb_calls c)
