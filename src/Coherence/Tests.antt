-- ===== src/Coherence/Tests.antt =====
-- The theorems on the coherence tables (MemSys/setup_cohe.c), applied to single accesses.
use rsim.Prelude.{◌≡◌, refl, true, false}
use rsim.Prelude.Result.{ok}
use rsim.Req.{ReqType, bad_line_state, invalid, sh_cl, pr_dy, Protocol, Hints, wb_nref}
use rsim.Coherence.Table.{Config}
use rsim.Coherence.{Outcome, cohe_sl}
use rsim.Coherence.Mesi.{is_private, kind, mesi, cohe_sl-eq-mesi}
use rsim.Coherence.Levels.{l2, routine, Reach, absent, next, Reach-answers}
use rsim.Coherence.Safety.{store-permission}

-- 16-byte headers and 64-byte lines under MSI, with hints for exclusive lines
abbrev msi : Config
msi = record {
  req_sz = 16;
  line_sz = 64;
  cc_protocol = Protocol.msi;
  replacement_hints = Hints.hints_excl;
}

-- a store to a shared line: an UPGRADE, with no line in the reply
abbrev upgraded : Outcome
upgraded = record {
  nxt_st = bad_line_state;
  nxt_mod_req = ReqType.upgrade;
  req_sz = 16;
  rep_sz = 16;
  nxt_req = ReqType.bad_req_type;
  nxt_req_sz = 0;
  allocate = true;
}

-- a dirty victim
abbrev written_back : Outcome
written_back = record {
  nxt_st = invalid;
  nxt_mod_req = ReqType.wrb;
  req_sz = 80;
  rep_sz = 16;
  nxt_req = ReqType.bad_req_type;
  nxt_req_sz = 0;
  allocate = true;
}

-- an exclusive reply under MSI
abbrev filled : Outcome
filled = record {
  nxt_st = pr_dy;
  nxt_mod_req = ReqType.bad_req_type;
  req_sz = 0;
  rep_sz = 0;
  nxt_req = ReqType.bad_req_type;
  nxt_req_sz = 0;
  allocate = true;
}

filled-Reach : Reach msi l2 pr_dy
unfolding cohe_sl
filled-Reach = next {s = invalid} (absent refl) false ReqType.reply_excl filled refl refl (cc)

cohe_sl-eq-mesi_example :
    cohe_sl msi sh_cl false ReqType.write wb_nref ≡ mesi msi sh_cl (kind ReqType.write)
cohe_sl-eq-mesi_example = cohe_sl-eq-mesi msi sh_cl false ReqType.write

store-permission_example :
    (is_private sh_cl ≡ false)
    × (upgraded.nxt_st ≡ bad_line_state)
    × (upgraded.nxt_mod_req ≡ ReqType.upgrade)
    × (upgraded.rep_sz ≡ 16)
unfolding cohe_sl
store-permission_example = store-permission msi sh_cl false upgraded refl

Reach-answers_example : (o : Outcome) × (routine msi l2 pr_dy false ReqType.copyback ≡ ok o)
Reach-answers_example = Reach-answers false ReqType.copyback filled-Reach refl
