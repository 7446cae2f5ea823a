-- ===== src/Coherence/Table.antt =====
-- The coherence table of MemSys/setup_cohe.c and the call that fills it.
use rsim.Prelude.{ℕ, Bool, true, false, ◌&&◌, List, [], ◌∷◌, if◌then◌else◌}
use rsim.Req.{
  ReqType, bad_req_type, CacheLineState, bad_line_state, is_req, is_line, Protocol, Hints,
}

-- The globals that `setup_tables` reads: `REQ_SZ`, `LINESZ` (the block size), `CCProtocol` and
-- `ReplacementHintsLevel`.
pub record Config : Type 0 where
  pub req_sz : ℕ
  pub line_sz : ℕ
  pub cc_protocol : Protocol
  pub replacement_hints : Hints

-- one element of `sttbl`
pub record Entry : Type 0 where
  pub valid : Bool
  pub nxt_st : CacheLineState
  pub nxt_mod_req : ReqType
  pub req_sz : ℕ
  pub rep_sz : ℕ
  pub nxt_req : ReqType
  pub nxt_req_sz : ℕ
  pub noalloc : Bool

-- `struct cohe_table`: `reqtbl[req].sttbl[st]`
abbrev pub CoheTable : Type 0
CoheTable = ReqType → CacheLineState → Entry

-- The tables are C globals, so they start out zeroed.
abbrev pub empty_table : CoheTable
empty_table r s = record {
  valid = false;
  nxt_st = bad_line_state;
  nxt_mod_req = bad_req_type;
  req_sz = 0;
  rep_sz = 0;
  nxt_req = bad_req_type;
  nxt_req_sz = 0;
  noalloc = false;
}

-- the arguments of one `AddEntryToTable`, the table left out
pub record Call : Type 0 where
  pub req : ReqType
  pub st : CacheLineState
  pub entry : Entry

abbrev pub call :
    ReqType → CacheLineState → CacheLineState → ReqType → ℕ → ℕ → ReqType → ℕ → Bool → Call
call req st nxt_st nxt_mod_req req_sz rep_sz nxt_req nxt_req_sz noalloc = record {
  req = req;
  st = st;
  entry = record {
    valid = true;
    nxt_st = nxt_st;
    nxt_mod_req = nxt_mod_req;
    req_sz = req_sz;
    rep_sz = rep_sz;
    nxt_req = nxt_req;
    nxt_req_sz = nxt_req_sz;
    noalloc = noalloc;
  };
}

-- `AddEntryToTable`
abbrev pub add_entry_to_table : CoheTable → Call → CoheTable
add_entry_to_table t k r s = if is_req r k.req && is_line s k.st then k.entry else t r s

-- a sequence of calls, first to last
abbrev pub add_all : CoheTable → List Call → CoheTable
add_all t [] = t
add_all t (k ∷ ks) = add_all (add_entry_to_table t k) ks

abbrev pub setup : List Call → CoheTable
setup ks = add_all empty_table ks
