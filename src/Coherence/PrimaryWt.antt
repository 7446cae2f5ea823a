-- ===== src/Coherence/PrimaryWt.antt =====
-- `Primary_WT`, the table of a write-through L1 cache (MemSys/setup_cohe.c).
use rsim.Prelude.{◌+◌, false, true, List, [], ◌∷◌}
use rsim.Req.{
  bad_req_type, read, write, rmw, l1write_prefetch, l1read_prefetch, l2write_prefetch,
  l2read_prefetch, reply_sh, reply_excl, reply_upgrade, reply_excldy, copyback, copyback_invl, invl,
  repl, bad_line_state, invalid, pr_cl,
}
use rsim.Coherence.Table.{Config, Call, call, CoheTable, setup}

primary_wt_calls : Config → List Call
primary_wt_calls c =
    call read invalid bad_line_state read c.req_sz (c.line_sz + c.req_sz) bad_req_type 0 false
    ∷ call read pr_cl pr_cl bad_req_type 0 0 bad_req_type 0 false
    ∷ call write invalid bad_line_state write c.req_sz c.req_sz bad_req_type 0 true
    ∷ call write pr_cl pr_cl write c.req_sz c.req_sz bad_req_type 0 true
    ∷ call rmw invalid bad_line_state rmw c.req_sz (c.line_sz + c.req_sz) bad_req_type 0 false
    ∷ call rmw pr_cl pr_cl rmw c.req_sz c.req_sz bad_req_type 0 false
    ∷ call l1write_prefetch invalid bad_line_state l1write_prefetch c.req_sz (c.line_sz + c.req_sz)
        bad_req_type 0 false
    ∷ call l1write_prefetch pr_cl pr_cl l1write_prefetch c.req_sz c.req_sz bad_req_type 0 false
    ∷ call l1read_prefetch invalid bad_line_state l1read_prefetch c.req_sz (c.line_sz + c.req_sz)
        bad_req_type 0 false
    ∷ call l1read_prefetch pr_cl pr_cl bad_req_type 0 0 bad_req_type 0 false
    ∷ call l2write_prefetch invalid invalid l2write_prefetch c.req_sz c.req_sz bad_req_type 0 true
    ∷ call l2write_prefetch pr_cl pr_cl l2write_prefetch c.req_sz c.req_sz bad_req_type 0 false
    ∷ call l2read_prefetch invalid invalid l2read_prefetch c.req_sz c.req_sz bad_req_type 0 true
    ∷ call l2read_prefetch pr_cl pr_cl bad_req_type 0 0 bad_req_type 0 false
    ∷ call reply_sh invalid pr_cl bad_req_type 0 0 bad_req_type 0 false
    ∷ call reply_excl invalid pr_cl bad_req_type 0 0 bad_req_type 0 false
    ∷ call reply_excl pr_cl pr_cl bad_req_type 0 0 bad_req_type 0 false
    ∷ call reply_excldy invalid pr_cl bad_req_type 0 0 bad_req_type 0 false
    ∷ call reply_excldy pr_cl pr_cl bad_req_type 0 0 bad_req_type 0 false
    ∷ call reply_upgrade invalid pr_cl bad_req_type 0 0 bad_req_type 0 false
    ∷ call reply_upgrade pr_cl pr_cl bad_req_type 0 0 bad_req_type 0 false
    ∷ call copyback invalid invalid copyback c.req_sz c.req_sz bad_req_type 0 false
    ∷ call copyback pr_cl pr_cl copyback c.req_sz c.req_sz bad_req_type 0 false
    ∷ call copyback_invl invalid invalid copyback_invl c.req_sz c.req_sz bad_req_type 0 false
    ∷ call copyback_invl pr_cl invalid copyback_invl c.req_sz c.req_sz bad_req_type 0 false
    ∷ call invl invalid invalid invl c.req_sz c.req_sz bad_req_type 0 false
    ∷ call invl pr_cl invalid invl c.req_sz c.req_sz bad_req_type 0 false
    ∷ call repl invalid invalid bad_req_type 0 0 bad_req_type 0 false
    ∷ call repl pr_cl invalid bad_req_type 0 0 bad_req_type 0 false
    ∷ []

unfoldable pub primary_wt : Config → CoheTable
unfolding primary_wt_calls
primary_wt c = setup (primary_wt_calls c)
