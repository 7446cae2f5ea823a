-- ===== src/Mshr/Tests.antt =====
-- Runs of `notpres_mshr` on an L2 cache with two MSHRs, the first in use, and the theorems applied.
use rsim.Prelude.{
  ℕ, ◌*◌, ◌∙◌, sym, ◌≡◌, ◌≢◌, refl, true, false, none, some, arith, ◌==◌, if◌then◌else◌, ◌&&◌, ◌||◌,
}
use rsim.Prelude.Result.{ok, fatal}
use rsim.Req.{ReqType, bad_line_state, sh_cl, wb_nref, Protocol, Hints}
use rsim.Coherence.{Outcome, cohe_sl}
use rsim.Coherence.Table.{Config}
use rsim.Cache.{ReqPtr, Req, Mshr, Cache, secondlevel, lru, request, ack}
use rsim.Cache.CoheRoutine.{cache_get_cohe_type, types_of, home_of, checked}
use rsim.Cache.Lookup.{Found, total_miss, notpres, found, find_line}
use rsim.Mshr.{
  Params, Sim, Response, mshr_new, mshr_coal, find_in_mshr_entries, find_match, find_free,
  remove_mshr,
}
use rsim.Mshr.Request.{
  request_typed, request_unmatched, respond, allocate_mshr, book, is_exclusive, is_wt, is_read,
}
use rsim.Mshr.Dispatch.{
  notpres_mshr, dispatched, by_type, request_case, request_matched, try_coalesce, coalesce,
}
use rsim.Mshr.Count.{count_valid}
use rsim.Mshr.Invariant.{IsValid, IsFresh, mshr_of}
use rsim.Mshr.Search.{Holds}
use rsim.Mshr.Grow.{IsFree}
use rsim.Mshr.Preserve.{notpres_mshr-IsValid}
use rsim.Mshr.Matched.{request_matched-joins}
use rsim.Mshr.Hazard.{Allocates, allocate_mshr-Allocates}
use rsim.Mshr.Retire.{remove_mshr-some}

abbrev params : Params
params = record {
  num_nodes = 1;
  max_coals = 4;
  wrb_buf_size = 8;
  discriminate_prefetch = false;
  l1_type = secondlevel;
  memsim_stat_on = true;
  simtime = 100;
}

abbrev msi : Config
msi = record {
  req_sz = 16;
  line_sz = 64;
  cc_protocol = Protocol.msi;
  replacement_hints = Hints.hints_none;
}

abbrev read_of : ℕ → Req
read_of block = record {
  address = block * 64;
  tag = block;
  linesz = 64;
  req_type = ReqType.read;
  prcr_req_type = ReqType.read;
  trans = request;
  reply_st = ack;
  nack_nok = false;
  prefetch = false;
  size_st = 0;
  size_req = 0;
  cohe_type = wb_nref;
  allo_type = true;
  dest_node = 0;
  read_with_write = false;
}

-- The MSHR 0 is for the request 1, and the MSHR 1 is free.
abbrev an_mshr : ℕ → Mshr
an_mshr i = record {
  valid = i == 0;
  setnum = 0;
  mainreq = 1;
  counter = 0;
  coal_req = λ k. 0;
  pend_cohe_type = ReqType.bad_req_type;
  stall_war = false;
  demand = none;
  only_prefs = false;
  writes_present = false;
}

abbrev an_l2 : Cache
an_l2 = record {
  level = secondlevel;
  infinite = false;
  linesz = 64;
  setsz = 4;
  cohe_type = wb_nref;
  allo_type = true;
  adap_type = false;
  replacement = lru;
  cohe_rtn = cohe_sl msi;
  data_of = λ i k. record {
    tag = some k;
    age = 1;
    dest_node = 0;
    pref = false;
    pref_tag_repl = none;
    st = sh_cl;
    cohe_type = wb_nref;
    allo_type = true;
    mshr_out = false;
    cohe_pend = false;
  };
  num_lines = 8;
  block_bits = 6;
  set_bits = 1;
  non_tag_bits = 7;
  mshrs = an_mshr;
  mshr_count = 1;
  reqmshr_count = 1;
  reqs_at_mshr_count = 1;
  max_mshrs = 2;
  wrb_buf_used = 0;
  node_num = 0;
  stat = record {
    pipe_stall_mshr_war = 0;
    pipe_stall_mshr_full = 0;
    pipe_stall_mshr_cohe = 0;
    pipe_stall_mshr_coal = 0;
    pipe_stall_wrb_match = 0;
    pipe_stall_wrbbuf_full = 0;
    pipe_stall_pend_cohe = 0;
    pref_useful = 0;
    pref_late = 0;
    pref_damaging = 0;
    pref_useless = 0;
  };
}

-- the requests 1 and 3 for the block 20, and the request 2 for the block 31, both not in the cache
abbrev state : Sim
state = record {
  cache = an_l2;
  reqs = λ p. if p == 2 then read_of 31 else read_of 20;
  addrs = record { node_of = λ b. none; cohe_of = λ b. none };
}

only_first : (i : ℕ) → (mshr_of state i).valid ≡ true → i ≡ 0
only_first i v = ground arith

state-IsValid : IsValid params state
unfolding count_valid
state-IsValid = record {
  counted = refl;
  coals = λ i lt v. omega arith;
  unique = λ i j li lj vi vj e. only_first i vi ∙ sym (only_first j vj);
}

state-IsFresh : IsFresh state 2
state-IsFresh i lt v e = ground arith

abbrev respond_to : ReqPtr → Response × Sim
respond_to rp = elim (notpres_mshr params state rp) [ ok out ↦ out | fatal ↦ (mshr_new, state) ]

-- The request 2 is for a line that is in no MSHR and not in the cache.
misses : notpres_mshr params state 2 ≡ ok (mshr_new, (respond_to 2).1)
unfolding cache_get_cohe_type types_of home_of checked notpres_mshr dispatched by_type request_case
    find_in_mshr_entries find_match find_free request_unmatched request_typed respond allocate_mshr
    book notpres found find_line cohe_sl
misses = refl

notpres_mshr-IsValid_example : IsValid params (respond_to 2).1
notpres_mshr-IsValid_example =
    notpres_mshr-IsValid params state 2 mshr_new (respond_to 2).1 state-IsValid state-IsFresh misses

first-Holds : Holds state 20 0
first-Holds = record { in_range = omega arith; valid = refl; same_tag = refl }

-- the request 3 and where it would be in the cache
abbrev place : Found
place = record { presence = total_miss; tag = 10; set = 0; set_ind = 0 }

coalesces : (request_matched params state 3 place 0).0 ≡ mshr_coal
unfolding request_matched try_coalesce coalesce
coalesces = refl

request_matched-joins_example :
    ((mshr_of state 0).counter ≢ params.max_coals)
    × ((mshr_of (request_matched params state 3 place 0).1 0).counter ≡ 1)
    × ((mshr_of (request_matched params state 3 place 0).1 0).coal_req 0 ≡ 3)
    × ((is_exclusive ReqType.read && (is_wt secondlevel || is_read ReqType.read)) ≡ false)
request_matched-joins_example = request_matched-joins params state 3 place 0 coalesces

-- what the coherence routine says of a read miss
abbrev fetched : Outcome
fetched = record {
  nxt_st = bad_line_state;
  nxt_mod_req = ReqType.read_sh;
  req_sz = 16;
  rep_sz = 80;
  nxt_req = ReqType.bad_req_type;
  nxt_req_sz = 0;
  allocate = true;
}

allocate_mshr-Allocates_example :
    Allocates params state 2 place fetched (allocate_mshr params state 2 place fetched (some 1))
unfolding find_free
allocate_mshr-Allocates_example = allocate_mshr-Allocates params state 2 place fetched state-IsValid

second-IsFree : IsFree state 2 1
second-IsFree = record { in_range = omega arith; free = refl; new_tag = λ j lt v e. ground arith }

remove_mshr-some_example :
    IsValid params (remove_mshr state 0 (some 3))
    × (find_in_mshr_entries (remove_mshr state 0 (some 3)) 20 ≡ some 0)
remove_mshr-some_example = remove_mshr-some params state 0 3 state-IsValid (omega arith) refl refl
