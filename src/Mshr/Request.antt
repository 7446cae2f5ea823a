-- ===== src/Mshr/Request.antt =====
-- `notpres_mshr` on a REQUEST (MemSys/mshr.c).
use rsim.Prelude.{
  ℕ, ◌+◌, Bool, true, false, not, ◌&&◌, ◌||◌, Option, none, some, leb, ◌==◌, if◌then◌else◌, update,
}
use rsim.Prelude.Result.{Result, ok, fatal, ◌>>=◌}
use rsim.Req.{ReqType, CacheLineState, invalid, is_req, is_line}
use rsim.Coherence.{Outcome}
use rsim.Cache.{
  ReqPtr, Req, Line, Mshr, Cache, CacheLevel, firstlevel_wt, firstlevel_wb, secondlevel, line_at,
  put_line,
}
use rsim.Cache.Lookup.{Presence, hit, Found}
use rsim.Cache.Lru.{hit_update}
use rsim.Cache.CoheRoutine.{Access, AddrMap, cache_get_cohe_type}
use rsim.Mshr.{
  Response, mshr_new, mshr_fwd, nomshr_stall, nomshr_stall_cohe, nomshr_stall_wrbbuf_full,
  nomshr_fwd, nomshr, Params, Sim, set_req, set_cache, set_mshr, count_stat,
}

-- READ, L1READ_PREFETCH, L2READ_PREFETCH
abbrev pub is_read : ReqType → Bool
is_read ReqType.read = true
is_read ReqType.l1read_prefetch = true
is_read ReqType.l2read_prefetch = true
is_read _ = false

-- WRITE, RMW, L1WRITE_PREFETCH, L2WRITE_PREFETCH
abbrev pub is_exclusive : ReqType → Bool
is_exclusive ReqType.write = true
is_exclusive ReqType.rmw = true
is_exclusive ReqType.l1write_prefetch = true
is_exclusive ReqType.l2write_prefetch = true
is_exclusive _ = false

abbrev pub is_hit : Presence → Bool
is_hit hit = true
is_hit _ = false

abbrev pub is_wt : CacheLevel → Bool
is_wt firstlevel_wt = true
is_wt _ = false

abbrev pub is_wb : CacheLevel → Bool
is_wb firstlevel_wb = true
is_wb _ = false

abbrev pub is_second : CacheLevel → Bool
is_second secondlevel = true
is_second _ = false

-- a write that dirties the line: WRITE or RMW
abbrev pub is_store : ReqType → Bool
is_store ReqType.write = true
is_store ReqType.rmw = true
is_store _ = false

abbrev pub is_l2_prefetch : ReqType → Bool
is_l2_prefetch ReqType.l2write_prefetch = true
is_l2_prefetch ReqType.l2read_prefetch = true
is_l2_prefetch _ = false

-- `captr->data[i1][i2]`, with `i1` and `i2` from `set_ind`
abbrev pub line_of : Cache → ℕ → Line
line_of c k = line_at false c.data_of k

abbrev pub set_line_of : Cache → ℕ → Line → Cache
set_line_of c k l = record c { data_of = put_line false c.data_of k l }

-- The request is sent on with the sizes and the type of the coherence routine. (NOCHANGE is in no
-- row of the tables.)
abbrev pub sent_as : Req → Outcome → Req
sent_as r o = record r { size_st = o.req_sz; size_req = o.rep_sz; req_type = o.nxt_mod_req }

abbrev pub touch_hit : Sim → Found → Req → Sim
touch_hit s f r = set_cache s (hit_update f.set_ind s.cache f.set r)

-- The request is serviced here: no lower request is needed.
unfoldable pub service : Params → Sim → ReqPtr → Found → CacheLineState → Outcome → Response × Sim
service pm s rp f cur_state o =
    let l = line_of s.cache f.set_ind in
    if l.cohe_pend
    then (
      nomshr_stall_cohe,
      count_stat pm (λ t. record t { pipe_stall_pend_cohe = t.pipe_stall_pend_cohe + 1 }) s,
    )
    else let c =
        if is_line cur_state o.nxt_st
        then s.cache
        else set_line_of s.cache f.set_ind (record l { st = o.nxt_st }) in
      (nomshr, touch_hit (set_cache s c) f (s.reqs rp))

-- an access that does not allocate in an L1 cache
abbrev pub bypasses : CacheLevel → ReqType → Bool
bypasses level prcr =
    (is_wt level || (is_wb level && is_l2_prefetch prcr))
    && (is_req prcr ReqType.write || is_l2_prefetch prcr)

-- It is sent to the next level without an MSHR.
unfoldable pub bypass : Sim → ReqPtr → Found → Outcome → Response × Sim
bypass s rp f o =
    let r = s.reqs rp in
    let s' = if is_hit f.presence then touch_hit s f r else s in
    (
      if is_hit f.presence && is_req r.prcr_req_type ReqType.l2read_prefetch
          then nomshr
          else nomshr_fwd,
      set_req s' rp (sent_as r o),
    )

-- the MSHR `i`, booked for the request
abbrev pub booked : Cache → ℕ → ReqPtr → Req → Found → Mshr
booked c i rp r f = record (c.mshrs i) {
  valid = true;
  setnum = f.set;
  mainreq = rp;
  counter = 0;
  pend_cohe_type = ReqType.bad_req_type;
  stall_war = false;
  demand = none;
  only_prefs = r.prefetch;
  writes_present = not (is_wt c.level) && is_store r.req_type;
}

abbrev pub count_booking : Cache → Cache
count_booking c = record c {
  mshr_count = c.mshr_count + 1;
  reqmshr_count = c.reqmshr_count + 1;
  reqs_at_mshr_count = c.reqs_at_mshr_count + 1;
}

-- A line with an upgrade outstanding is kept from being a victim.
abbrev pub lock_line : Cache → ℕ → Cache
lock_line c k =
    if is_wt c.level then c else set_line_of c k (record (line_of c k) { mshr_out = true })

-- An MSHR is booked: an upgrade if the line is here, a miss otherwise.
unfoldable pub book : Sim → ReqPtr → Found → Outcome → (i : ℕ) → Response × Sim
book s rp f o i =
    let r = s.reqs rp in
    let s₁ = set_cache s (set_mshr (count_booking s.cache) i (booked s.cache i rp r f)) in
    if is_hit f.presence
    then (let s₂ = touch_hit s₁ f r in
        (mshr_fwd, set_req (set_cache s₂ (lock_line s₂.cache f.set_ind)) rp (sent_as r o)))
    else (mshr_new, set_req s₁ rp (sent_as r o))

-- The structural hazards, then the booking. `free` is the free MSHR that was found; without one the
-- C code would write in front of the array.
unfoldable pub allocate_mshr :
    Params → Sim → ReqPtr → Found → Outcome → (free : Option ℕ) → Result (Response × Sim)
unfolding book
allocate_mshr pm s rp f o free =
    let c = s.cache in
    if c.mshr_count == c.max_mshrs
    then ok (
      nomshr_stall,
      count_stat pm (λ t. record t { pipe_stall_mshr_full = t.pipe_stall_mshr_full + 1 }) s,
    )
    else if is_second c.level && leb pm.wrb_buf_size (c.wrb_buf_used + c.mshr_count)
    then ok (
      nomshr_stall_wrbbuf_full,
      count_stat pm (λ t. record t { pipe_stall_wrbbuf_full = t.pipe_stall_wrbbuf_full + 1 }) s,
    )
    else elim free [ none ↦ fatal | some i ↦ ok (book s rp f o i) ]

-- a request that matches no MSHR, after the coherence routine
unfoldable pub respond :
    Params → Sim → ReqPtr → Found → CacheLineState → Option ℕ → Outcome → Result (Response × Sim)
unfolding service bypass allocate_mshr
respond pm s rp f cur_state free o =
    if is_req o.nxt_mod_req ReqType.bad_req_type
    then ok (service pm s rp f cur_state o)
    else if bypasses s.cache.level (s.reqs rp).prcr_req_type
    then ok (bypass s rp f o)
    else allocate_mshr pm s rp f o free

abbrev pub typed : Req → Access → Req
typed r a = record r { cohe_type = a.cohe_type; allo_type = a.allo_type; dest_node = a.node }

-- the state of the line, INVALID unless it is a hit
abbrev pub cur_state_of : Sim → Found → CacheLineState
cur_state_of s f = if is_hit f.presence then (line_of s.cache f.set_ind).st else invalid

-- the request with its coherence type, and the address map after the look-up
abbrev pub typed_state : Sim → ReqPtr → Access × AddrMap → Sim
typed_state s rp a = record s { reqs = update s.reqs rp (typed (s.reqs rp) a.0); addrs = a.1 }

-- the call of the coherence routine, and what follows
unfoldable pub request_typed :
    Params → Sim → ReqPtr → Found → Option ℕ → Access × AddrMap → Result (Response × Sim)
unfolding respond
request_typed pm s rp f free a =
    s.cache.cohe_rtn (cur_state_of s f) a.0.allo_type (s.reqs rp).req_type a.0.cohe_type
    >>= respond pm (typed_state s rp a) rp f (cur_state_of s f) free

-- a REQUEST that matches no MSHR
unfoldable pub request_unmatched :
    Params → Sim → ReqPtr → Found → Option ℕ → Result (Response × Sim)
unfolding request_typed
request_unmatched pm s rp f free =
    cache_get_cohe_type pm.num_nodes s.addrs s.cache f.presence f.set_ind (s.reqs rp).address
    >>= request_typed pm s rp f free
