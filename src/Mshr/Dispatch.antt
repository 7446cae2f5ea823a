-- ===== src/Mshr/Dispatch.antt =====
-- `notpres_mshr` itself, and its case of a REQUEST that matches an MSHR (MemSys/mshr.c).
use rsim.Prelude.{
  ℕ, ◌+◌, ◌/◌, ◌^◌, Bool, true, not, ◌&&◌, ◌||◌, Option, none, some, ◌==◌, if◌then◌else◌, update,
}
use rsim.Prelude.Result.{Result, ok, fatal}
use rsim.Req.{ReqType, is_req}
use rsim.Cache.{ReqPtr, Req, Mshr, Cache, TransType, request, reply, cohe, cohe_reply}
use rsim.Cache.Lookup.{Found, notpres}
use rsim.Mshr.{
  Response, mshr_coal, mshr_stall_war, mshr_stall_cohe, mshr_stall_coal, mshr_stall_wrb,
  mshr_useless_fetch_in_progress, nomshr_fwd, nomshr, Params, Sim, set_req, set_cache, set_mshr,
  count_stat, main_of, find_free, find_in_mshr_entries,
}
use rsim.Mshr.Request.{
  is_read, is_exclusive, is_hit, is_wt, is_wb, is_second, is_store, request_unmatched,
}
use rsim.Mshr.CoheCase.{is_victim, cohe_case}

-- The MSHR holds a coherence message that the request has to wait for. The C code asks whether the
-- MSHR's main request is exclusive.
abbrev pub cohe_blocks : Mshr → Req → Bool
cohe_blocks m main =
    not (is_req m.pend_cohe_type ReqType.bad_req_type)
    && ((is_req m.pend_cohe_type ReqType.copyback && is_exclusive main.prcr_req_type)
        || not (is_req m.pend_cohe_type ReqType.copyback))

-- what an L1 cache does with a prefetch, if it is settled here
unfoldable pub prefetch_match : Sim → ReqPtr → Req → Option (Response × Sim)
prefetch_match s rp main =
    let r = s.reqs rp in
    elim r.prcr_req_type [
      | ReqType.l1read_prefetch ↦ some (mshr_useless_fetch_in_progress, s)
      | ReqType.l2read_prefetch ↦ some (mshr_useless_fetch_in_progress, s)
      | ReqType.l1write_prefetch ↦
          if is_wt s.cache.level
          then some (
            nomshr_fwd,
            set_req s rp (record r {
              req_type = ReqType.l2write_prefetch;
              prcr_req_type = ReqType.l2write_prefetch;
            }),
          )
          else if is_exclusive main.prcr_req_type
          then some (mshr_useless_fetch_in_progress, s)
          else none
      | ReqType.l2write_prefetch ↦ some (nomshr_fwd, s)
      | _ ↦ none
    ]

-- a request for ownership that meets an MSHR for a shared line (any MSHR, in a write-through cache)
abbrev pub is_war : Cache → Req → Req → Bool
is_war c r main = is_exclusive r.prcr_req_type && (is_wt c.level || is_read main.prcr_req_type)

abbrev pub count_war : Params → Sim → Sim
count_war pm s = count_stat pm (λ t. record t { pipe_stall_mshr_war = t.pipe_stall_mshr_war + 1 }) s

-- A prefetch that will be dropped anyway is not marked as a stall.
unfoldable pub stall_on_war : Params → Sim → Req → (i : ℕ) → Response × Sim
stall_on_war pm s r i =
    if not r.prefetch || not (pm.discriminate_prefetch && not (is_second s.cache.level))
    then (let s' = count_war pm s in
        (
          mshr_stall_war,
          set_cache s' (set_mshr s'.cache i (record (s'.cache.mshrs i) { stall_war = true })),
        ))
    else (mshr_stall_war, s)

-- the MSHR with the request coalesced into it
abbrev pub joined : Params → Cache → Mshr → ReqPtr → Req → Mshr
joined pm c m rp r = record m {
  coal_req = update m.coal_req m.counter rp;
  counter = m.counter + 1;
  writes_present = m.writes_present || (not (is_wt c.level) && is_store r.req_type);
  demand = if m.only_prefs && not r.prefetch then some pm.simtime else m.demand;
  only_prefs = m.only_prefs && r.prefetch;
}

-- an access that allocates in the L1 cache joins one that does not
abbrev pub reads_with_write : Params → Req → Req → Bool
reads_with_write pm main r =
    ((is_wt pm.l1_type && is_req main.prcr_req_type ReqType.write)
      || (is_req main.prcr_req_type ReqType.l2write_prefetch
          || is_req main.prcr_req_type ReqType.l2read_prefetch))
    && (is_req r.prcr_req_type ReqType.l1write_prefetch
        || (is_req r.prcr_req_type ReqType.read
            || (is_req r.prcr_req_type ReqType.l1read_prefetch
                || (is_req r.prcr_req_type ReqType.rmw
                    || (is_wb pm.l1_type && is_req r.prcr_req_type ReqType.write)))))

unfoldable pub coalesce : Params → Sim → ReqPtr → (i : ℕ) → Response × Sim
coalesce pm s rp i =
    let c = s.cache in
    let m = c.mshrs i in
    let r = s.reqs rp in
    let main = main_of s m in
    let c' = record (set_mshr c i (joined pm c m rp r)) {
      reqs_at_mshr_count = c.reqs_at_mshr_count + 1;
      stat =
          if m.only_prefs && not r.prefetch
          then record (c.stat) { pref_late = c.stat.pref_late + 1 }
          else c.stat;
    } in
    (
      mshr_coal,
      record s {
        cache = c';
        reqs =
            if reads_with_write pm main r
            then update s.reqs m.mainreq (record main { read_with_write = true })
            else s.reqs;
      },
    )

-- the last tests before the request coalesces
unfoldable pub try_coalesce : Params → Sim → ReqPtr → Found → (i : ℕ) → Response × Sim
unfolding coalesce stall_on_war
try_coalesce pm s rp f i =
    let c = s.cache in
    let m = c.mshrs i in
    let r = s.reqs rp in
    if is_wt c.level && (is_hit f.presence && is_read r.prcr_req_type)
    then (nomshr, s)
    else if m.stall_war
    then (mshr_stall_war, count_war pm s)
    else if is_war c r (main_of s m)
    then stall_on_war pm s r i
    else if m.counter == pm.max_coals
    then (
      mshr_stall_coal,
      count_stat pm (λ t. record t { pipe_stall_mshr_coal = t.pipe_stall_mshr_coal + 1 }) s,
    )
    else coalesce pm s rp i

-- a REQUEST that matches the MSHR `i`
unfoldable pub request_matched : Params → Sim → ReqPtr → Found → (i : ℕ) → Response × Sim
unfolding prefetch_match try_coalesce
request_matched pm s rp f i =
    let m = s.cache.mshrs i in
    let main = main_of s m in
    if is_victim main.req_type
    then (
      mshr_stall_wrb,
      count_stat pm (λ t. record t { pipe_stall_wrb_match = t.pipe_stall_wrb_match + 1 }) s,
    )
    else if cohe_blocks m main
    then (
      mshr_stall_cohe,
      count_stat pm (λ t. record t { pipe_stall_mshr_cohe = t.pipe_stall_mshr_cohe + 1 }) s,
    )
    else if is_second s.cache.level
    then try_coalesce pm s rp f i
    else elim (prefetch_match s rp main) [ some out ↦ out | none ↦ try_coalesce pm s rp f i ]

-- the first two assignments: the request's tag and line size
abbrev pub tagged : Sim → ReqPtr → Sim
tagged s rp =
    let r = s.reqs rp in
    set_req s rp (record r { tag = r.address / 2 ^ s.cache.block_bits; linesz = s.cache.linesz })

unfoldable pub request_case : Params → Sim → ReqPtr → Option ℕ → Result (Response × Sim)
unfolding request_matched
request_case pm s rp match =
    let f = notpres (s.reqs rp).address s.cache in
    elim match [
      | some i ↦ ok (request_matched pm s rp f i)
      | none ↦ request_unmatched pm s rp f (find_free s.cache.mshrs s.cache.max_mshrs 0)
    ]

-- the switch on the type of the message
unfoldable pub by_type : Params → Sim → ReqPtr → Option ℕ → TransType → Result (Response × Sim)
unfolding request_case
by_type pm s rp match request = request_case pm s rp match
by_type pm s rp match reply = fatal
by_type pm s rp match cohe = cohe_case s (s.reqs rp) match
by_type pm s rp match cohe_reply = cohe_case s (s.reqs rp) match

-- `notpres_mshr` after the first two assignments
unfoldable pub dispatched : Params → Sim → ReqPtr → Result (Response × Sim)
unfolding by_type
dispatched pm s rp = by_type pm s rp (find_in_mshr_entries s (s.reqs rp).tag) (s.reqs rp).trans

-- `notpres_mshr`
unfoldable pub notpres_mshr : Params → Sim → ReqPtr → Result (Response × Sim)
unfolding dispatched
notpres_mshr pm s rp = dispatched pm (tagged s rp) rp
