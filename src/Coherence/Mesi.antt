-- ===== src/Coherence/Mesi.antt =====
-- The L2 coherence protocol as a few rules on kinds of access, beside the table of
-- MemSys/setup_cohe.c that lists each pair of a request type and a line state.
use rsim.Prelude.{ℕ, ◌+◌, ◌≡◌, refl, Bool, true, false, Option, none, some, if◌then◌else◌}
use rsim.Prelude.Result.{Result, ok, fatal}
use rsim.Req.{
  ReqType, CacheLineState, bad_line_state, invalid, pr_cl, sh_cl, pr_dy, Protocol, Hints, wb_nref,
}
use rsim.Req.Finite.{each_row, ext_row}
use rsim.Coherence.Table.{Config}
use rsim.Coherence.{Outcome, cohe_sl}

-- what an access asks of a line
pub data Kind : Type 0 where
  share : Kind
  own : (store : Bool) → Kind
  fill_shared fill_private fill_dirty grant : Kind
  give_copy give_line drop_line : Kind
  evict : Kind
  other : Kind

unfoldable pub kind : ReqType → Kind
kind ReqType.read = share
kind ReqType.l1read_prefetch = share
kind ReqType.l2read_prefetch = share
kind ReqType.write = own true
kind ReqType.rmw = own true
kind ReqType.l1write_prefetch = own false
kind ReqType.l2write_prefetch = own false
kind ReqType.reply_sh = fill_shared
kind ReqType.reply_excl = fill_private
kind ReqType.reply_excldy = fill_dirty
kind ReqType.reply_upgrade = grant
kind ReqType.copyback = give_copy
kind ReqType.copyback_invl = give_line
kind ReqType.invl = drop_line
kind ReqType.repl = evict
kind _ = other

-- is the line held by this cache alone?
abbrev pub is_private : CacheLineState → Bool
is_private pr_cl = true
is_private pr_dy = true
is_private _ = false

-- the state in which a line is held alone, before any store
abbrev pub private_state : Config → CacheLineState
private_state c = elim c.cc_protocol [ Protocol.mesi ↦ pr_cl | Protocol.msi ↦ pr_dy ]

module _ (c : Config) where
  -- serviced here, with a new state
  abbrev pub here : CacheLineState → Result Outcome
  here s = ok (record {
    nxt_st = s;
    nxt_mod_req = ReqType.bad_req_type;
    req_sz = 0;
    rep_sz = 0;
    nxt_req = ReqType.bad_req_type;
    nxt_req_sz = 0;
    allocate = true;
  })

  -- sent on below as `r`; the line's state waits for the reply
  abbrev pub below : ReqType → (with_line : Bool) → Result Outcome
  below r with_line = ok (record {
    nxt_st = bad_line_state;
    nxt_mod_req = r;
    req_sz = c.req_sz;
    rep_sz = if with_line then c.line_sz + c.req_sz else c.req_sz;
    nxt_req = ReqType.bad_req_type;
    nxt_req_sz = 0;
    allocate = true;
  })

  -- an answer to a demand from outside; `sends` the line, and expects `back` the line's size
  abbrev pub answer : ReqType → CacheLineState → (sends back : Bool) → Result Outcome
  answer r s sends back = ok (record {
    nxt_st = s;
    nxt_mod_req = r;
    req_sz = if sends then c.line_sz + c.req_sz else c.req_sz;
    rep_sz = if back then c.line_sz + c.req_sz else c.req_sz;
    nxt_req = ReqType.bad_req_type;
    nxt_req_sz = 0;
    allocate = true;
  })

  -- a victim: `hint` goes below (none: nothing does) and `above` goes to the L1 cache
  abbrev pub victim : Option ReqType → (with_line : Bool) → ReqType → Result Outcome
  victim none with_line above = ok (record {
    nxt_st = invalid;
    nxt_mod_req = ReqType.bad_req_type;
    req_sz = 0;
    rep_sz = 0;
    nxt_req = above;
    nxt_req_sz = c.req_sz;
    allocate = true;
  })
  victim (some r) with_line above = ok (record {
    nxt_st = invalid;
    nxt_mod_req = r;
    req_sz = if with_line then c.line_sz + c.req_sz else c.req_sz;
    rep_sz = c.req_sz;
    nxt_req = above;
    nxt_req_sz = c.req_sz;
    allocate = true;
  })

  abbrev pub hint_clean : Option ReqType
  hint_clean = elim c.replacement_hints [ Hints.hints_none ↦ none | _ ↦ some ReqType.repl ]

  abbrev pub hint_shared : Option ReqType
  hint_shared = elim c.replacement_hints [ Hints.hints_all ↦ some ReqType.repl | _ ↦ none ]

  -- The protocol. A line in SH_DY is in no row.
  unfoldable pub mesi : CacheLineState → Kind → Result Outcome
  mesi invalid share = below ReqType.read_sh true
  mesi invalid (own store) = below ReqType.read_own true
  mesi invalid fill_shared = here sh_cl
  mesi invalid fill_private = here (private_state c)
  mesi invalid fill_dirty = here pr_dy
  mesi invalid give_copy = answer ReqType.copyback invalid false false
  mesi invalid give_line = answer ReqType.copyback_invl invalid false false
  mesi invalid drop_line = answer ReqType.invl invalid false false
  mesi invalid evict = here invalid
  mesi sh_cl share = here sh_cl
  mesi sh_cl (own store) = below ReqType.upgrade false
  mesi sh_cl grant = here (private_state c)
  mesi sh_cl give_copy = answer ReqType.copyback sh_cl false false
  mesi sh_cl give_line = answer ReqType.copyback_invl invalid false false
  mesi sh_cl drop_line = answer ReqType.invl invalid false false
  mesi sh_cl evict = victim hint_shared false ReqType.invl
  mesi pr_cl share = here pr_cl
  mesi pr_cl (own store) = here (if store then pr_dy else pr_cl)
  mesi pr_cl give_copy = answer ReqType.copyback sh_cl true false
  mesi pr_cl give_line = answer ReqType.copyback_invl invalid true false
  mesi pr_cl drop_line = answer ReqType.invl invalid false false
  mesi pr_cl evict = victim hint_clean false ReqType.copyback_invl
  mesi pr_dy share = here pr_dy
  mesi pr_dy (own store) = here pr_dy
  mesi pr_dy give_copy = answer ReqType.copyback sh_cl true true
  mesi pr_dy give_line = answer ReqType.copyback_invl invalid true true
  mesi pr_dy drop_line = answer ReqType.invl invalid false false
  mesi pr_dy evict = victim (some ReqType.wrb) true ReqType.copyback_invl
  mesi _ _ = fatal

abbrev config : ℕ → ℕ → Protocol → Hints → Config
config q l p h = record { req_sz = q; line_sz = l; cc_protocol = p; replacement_hints = h }

mesi_rows :
    (q l : ℕ) (p : Protocol) (h : Hints)
    → each_row (λ s a r. cohe_sl (config q l p h) s a r wb_nref)
      ≡ each_row (λ s a r. mesi (config q l p h) s (kind r))
unfolding cohe_sl mesi kind
mesi_rows q l Protocol.mesi Hints.hints_none = refl
mesi_rows q l Protocol.mesi _ = refl
mesi_rows q l Protocol.msi Hints.hints_none = refl
mesi_rows q l Protocol.msi _ = refl

-- For every request type, line state, allocation type, protocol and hint level, the L2 coherence
-- routine answers what the protocol's rules say: the next state, the message below with its sizes
-- and the message above, and it is fatal exactly where no rule applies.
pub cohe_sl-eq-mesi :
    (c : Config) (s : CacheLineState) (allo : Bool) (r : ReqType)
    → cohe_sl c s allo r wb_nref ≡ mesi c s (kind r)
cohe_sl-eq-mesi c = ext_row _ _ (mesi_rows c.req_sz c.line_sz c.cc_protocol c.replacement_hints)
