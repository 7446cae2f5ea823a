-- ===== src/Coherence/SecondaryWb.antt =====
-- `Secondary_WB`, the table of the L2 cache (MemSys/setup_cohe.c). Two pairs of rows depend on the
-- protocol, and two rows on the replacement hints.
use rsim.Prelude.{◌+◌, false, List, [], ◌∷◌, ◌++◌}
use rsim.Req.{
  bad_req_type, read, write, rmw, l1write_prefetch, l1read_prefetch, l2write_prefetch,
  l2read_prefetch, read_sh, read_own, upgrade, reply_sh, reply_excl, reply_upgrade, reply_excldy,
  copyback, copyback_invl, invl, wrb, repl, bad_line_state, invalid, pr_cl, sh_cl, pr_dy,
}
use rsim.Req.{Protocol, Hints}
use rsim.Coherence.Table.{Config, Call, call, CoheTable, setup}

secondary_wb_requests : Config → List Call
secondary_wb_requests c =
    call read invalid bad_line_state read_sh c.req_sz (c.line_sz + c.req_sz) bad_req_type 0 false
    ∷ call read pr_cl pr_cl bad_req_type 0 0 bad_req_type 0 false
    ∷ call read sh_cl sh_cl bad_req_type 0 0 bad_req_type 0 false
    ∷ call read pr_dy pr_dy bad_req_type 0 0 bad_req_type 0 false
    ∷ call write invalid bad_line_state read_own c.req_sz (c.line_sz + c.req_sz) bad_req_type 0
        false
    ∷ call write pr_cl pr_dy bad_req_type 0 0 bad_req_type 0 false
    ∷ call write sh_cl bad_line_state upgrade c.req_sz c.req_sz bad_req_type 0 false
    ∷ call write pr_dy pr_dy bad_req_type 0 0 bad_req_type 0 false
    ∷ call rmw invalid bad_line_state read_own c.req_sz (c.line_sz + c.req_sz) bad_req_type 0 false
    ∷ call rmw pr_cl pr_dy bad_req_type 0 0 bad_req_type 0 false
    ∷ call rmw sh_cl bad_line_state upgrade c.req_sz c.req_sz bad_req_type 0 false
    ∷ call rmw pr_dy pr_dy bad_req_type 0 0 bad_req_type 0 false
    ∷ call l1write_prefetch invalid bad_line_state read_own c.req_sz (c.line_sz + c.req_sz)
        bad_req_type 0 false
    ∷ call l1write_prefetch pr_cl pr_cl bad_req_type 0 0 bad_req_type 0 false
    ∷ call l1write_prefetch sh_cl bad_line_state upgrade c.req_sz c.req_sz bad_req_type 0 false
    ∷ call l1write_prefetch pr_dy pr_dy bad_req_type 0 0 bad_req_type 0 false
    ∷ call l1read_prefetch invalid bad_line_state read_sh c.req_sz (c.line_sz + c.req_sz)
        bad_req_type 0 false
    ∷ call l1read_prefetch pr_cl pr_cl bad_req_type 0 0 bad_req_type 0 false
    ∷ call l1read_prefetch sh_cl sh_cl bad_req_type 0 0 bad_req_type 0 false
    ∷ call l1read_prefetch pr_dy pr_dy bad_req_type 0 0 bad_req_type 0 false
    ∷ call l2write_prefetch invalid bad_line_state read_own c.req_sz (c.line_sz + c.req_sz)
        bad_req_type 0 false
    ∷ call l2write_prefetch pr_cl pr_cl bad_req_type 0 0 bad_req_type 0 false
    ∷ call l2write_prefetch sh_cl bad_line_state upgrade c.req_sz c.req_sz bad_req_type 0 false
    ∷ call l2write_prefetch pr_dy pr_dy bad_req_type 0 0 bad_req_type 0 false
    ∷ call l2read_prefetch invalid bad_line_state read_sh c.req_sz (c.line_sz + c.req_sz)
        bad_req_type 0 false
    ∷ call l2read_prefetch pr_cl pr_cl bad_req_type 0 0 bad_req_type 0 false
    ∷ call l2read_prefetch sh_cl sh_cl bad_req_type 0 0 bad_req_type 0 false
    ∷ call l2read_prefetch pr_dy pr_dy bad_req_type 0 0 bad_req_type 0 false
    ∷ call reply_sh invalid sh_cl bad_req_type 0 0 bad_req_type 0 false
    ∷ call reply_excldy invalid pr_dy bad_req_type 0 0 bad_req_type 0 false
    ∷ []

-- `if (CCProtocol != MSI)`
secondary_wb_private : Config → List Call
secondary_wb_private c = elim c.cc_protocol [
  | Protocol.mesi ↦
      call reply_excl invalid pr_cl bad_req_type 0 0 bad_req_type 0 false
      ∷ call reply_upgrade sh_cl pr_cl bad_req_type 0 0 bad_req_type 0 false
      ∷ []
  | Protocol.msi ↦
      call reply_excl invalid pr_dy bad_req_type 0 0 bad_req_type 0 false
      ∷ call reply_upgrade sh_cl pr_dy bad_req_type 0 0 bad_req_type 0 false
      ∷ []
]

secondary_wb_cohe : Config → List Call
secondary_wb_cohe c =
    call copyback invalid invalid copyback c.req_sz c.req_sz bad_req_type 0 false
    ∷ call copyback pr_cl sh_cl copyback (c.line_sz + c.req_sz) c.req_sz bad_req_type 0 false
    ∷ call copyback sh_cl sh_cl copyback c.req_sz c.req_sz bad_req_type 0 false
    ∷ call copyback pr_dy sh_cl copyback (c.line_sz + c.req_sz) (c.line_sz + c.req_sz) bad_req_type
        0 false
    ∷ call copyback_invl invalid invalid copyback_invl c.req_sz c.req_sz bad_req_type 0 false
    ∷ call copyback_invl pr_cl invalid copyback_invl (c.line_sz + c.req_sz) c.req_sz bad_req_type 0
        false
    ∷ call copyback_invl sh_cl invalid copyback_invl c.req_sz c.req_sz bad_req_type 0 false
    ∷ call copyback_invl pr_dy invalid copyback_invl (c.line_sz + c.req_sz) (c.line_sz + c.req_sz)
        bad_req_type 0 false
    ∷ call invl invalid invalid invl c.req_sz c.req_sz bad_req_type 0 false
    ∷ call invl pr_cl invalid invl c.req_sz c.req_sz bad_req_type 0 false
    ∷ call invl sh_cl invalid invl c.req_sz c.req_sz bad_req_type 0 false
    ∷ call invl pr_dy invalid invl c.req_sz c.req_sz bad_req_type 0 false
    ∷ call repl invalid invalid bad_req_type 0 0 bad_req_type 0 false
    ∷ []

-- `if (ReplacementHintsLevel >= REPLHINTS_EXCL)`, then `REPLHINTS_ALL`
secondary_wb_repl : Config → List Call
secondary_wb_repl c =
    (elim c.replacement_hints [
      | Hints.hints_none ↦ call repl pr_cl invalid bad_req_type 0 0 copyback_invl c.req_sz false
      | _ ↦ call repl pr_cl invalid repl c.req_sz c.req_sz copyback_invl c.req_sz false
    ])
    ∷ (elim c.replacement_hints [
      | Hints.hints_all ↦ call repl sh_cl invalid repl c.req_sz c.req_sz invl c.req_sz false
      | _ ↦ call repl sh_cl invalid bad_req_type 0 0 invl c.req_sz false
    ])
    ∷ call repl pr_dy invalid wrb (c.line_sz + c.req_sz) c.req_sz copyback_invl c.req_sz false
    ∷ []

unfoldable pub secondary_wb : Config → CoheTable
unfolding secondary_wb_requests secondary_wb_private secondary_wb_cohe secondary_wb_repl
secondary_wb c = setup (
    secondary_wb_requests c
    ++ (secondary_wb_private c ++ (secondary_wb_cohe c ++ secondary_wb_repl c)))
