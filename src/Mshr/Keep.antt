-- ===== src/Mshr/Keep.antt =====
-- The branches of `notpres_mshr` (MemSys/mshr.c) that book no MSHR and coalesce nothing: they keep
-- what the invariant reads.
use rsim.Prelude.{
  ℕ, ◌+◌, ◌≡◌, refl, ◌⊎◌, ap, not, ◌&&◌, ◌||◌, Option, none, some, arith, if◌then◌else◌, update_ne,
  Bool-cases, inl, inr,
}
use rsim.Prelude.Result.{OnOk}
use native.Mathlib.Decide.{ℕ_discrete}
use rsim.Req.{ReqType, CacheLineState, is_line}
use rsim.Coherence.{Outcome}
use rsim.Cache.{ReqPtr, Req, Mshr, Cache, Stat}
use rsim.Cache.Lookup.{Found}
use rsim.Cache.Frame.{SameMshrs, hit_update-SameMshrs}
use rsim.Mshr.{Response, Params, Sim, set_req, set_cache, set_mshr, count_stat, main_of}
use rsim.Mshr.Request.{
  service, bypass, touch_hit, line_of, is_hit, is_wt, is_wb, is_read, is_second,
}
use rsim.Mshr.CoheCase.{
  cohe_on_read, cohe_on_exclusive, cohe_matched, cohe_case, pend, meets_victim, is_stale_wrb,
  is_cohe_reply, is_victim,
}
use rsim.Mshr.Dispatch.{prefetch_match, stall_on_war, tagged, count_war}
use rsim.Mshr.Invariant.{Keeps, Keeps-refl, Keeps-trans, mshr_of}

pub cache-Keeps :
    (rp : ReqPtr) (s : Sim) (c : Cache) → SameMshrs s.cache c → Keeps rp s (set_cache s c)
cache-Keeps rp s c h = record {
  size = h.max_mshrs;
  count = h.mshr_count;
  valid = λ i. ap (λ f. (f i).valid) h.mshrs;
  main = λ i. ap (λ f. (f i).mainreq) h.mshrs;
  counter = λ i. ap (λ f. (f i).counter) h.mshrs;
  tags = λ p n. refl;
}

pub set_req-Keeps : (rp : ReqPtr) (s : Sim) (r : Req) → Keeps rp s (set_req s rp r)
set_req-Keeps rp s r = record {
  size = refl;
  count = refl;
  valid = λ i. refl;
  main = λ i. refl;
  counter = λ i. refl;
  tags = λ p n. ap (λ q. q.tag) (update_ne s.reqs rp p r n);
}

pub count_stat-Keeps :
    (rp : ReqPtr) (pm : Params) (f : Stat → Stat) (s : Sim) → Keeps rp s (count_stat pm f s)
count_stat-Keeps rp pm f s = elim (Bool-cases pm.memsim_stat_on) [
  | inl y ↦ rw y (
      cache-Keeps rp s _ record { mshrs = refl; mshr_count = refl; max_mshrs = refl; level = refl })
  | inr n ↦ rw n (Keeps-refl rp s)
]

-- An MSHR is written, with its valid bit, main request and counter as they were.
pub set_mshr-Keeps :
    (rp : ReqPtr) (s : Sim) (i : ℕ) (m : Mshr)
    → m.valid ≡ (mshr_of s i).valid
    → m.mainreq ≡ (mshr_of s i).mainreq
    → m.counter ≡ (mshr_of s i).counter
    → Keeps rp s (set_cache s (set_mshr s.cache i m))
set_mshr-Keeps rp s i m hv hm hc = record {
  size = refl;
  count = refl;
  valid = λ j. elim (ℕ_discrete j i) [ yes e ↦ ground arith | no n ↦ ground arith ];
  main = λ j. elim (ℕ_discrete j i) [ yes e ↦ ground arith | no n ↦ ground arith ];
  counter = λ j. elim (ℕ_discrete j i) [ yes e ↦ ground arith | no n ↦ ground arith ];
  tags = λ p n. refl;
}

pub tagged-Keeps : (s : Sim) (rp : ReqPtr) → Keeps rp s (tagged s rp)
tagged-Keeps s rp = set_req-Keeps rp s _

pub touch_hit-Keeps : (rp : ReqPtr) (s : Sim) (f : Found) (r : Req) → Keeps rp s (touch_hit s f r)
touch_hit-Keeps rp s f r = cache-Keeps rp s _ (hit_update-SameMshrs f.set_ind s.cache f.set r)

pub service-Keeps :
    (pm : Params) (s : Sim) (rp : ReqPtr) (f : Found) (st : CacheLineState) (o : Outcome)
    → Keeps rp s (service pm s rp f st o).1
unfolding service
service-Keeps pm s rp f st o = elim (Bool-cases (line_of s.cache f.set_ind).cohe_pend) [
  | inl y ↦ rw y (
      count_stat-Keeps rp pm (λ t. record t { pipe_stall_pend_cohe = t.pipe_stall_pend_cohe + 1 })
        s)
  | inr n ↦ rw n (
      Keeps-trans
        (elim (Bool-cases (is_line st o.nxt_st)) [
          | inl y ↦ rw y (Keeps-refl rp s)
          | inr m ↦ rw m (
              cache-Keeps rp s _
                record { mshrs = refl; mshr_count = refl; max_mshrs = refl; level = refl })
        ])
        (touch_hit-Keeps rp _ f _))
]

pub bypass-Keeps :
    (s : Sim) (rp : ReqPtr) (f : Found) (o : Outcome) → Keeps rp s (bypass s rp f o).1
unfolding bypass
bypass-Keeps s rp f o = elim (Bool-cases (is_hit f.presence)) [
  | inl y ↦ rw y (Keeps-trans (touch_hit-Keeps rp s f _) (set_req-Keeps rp _ _))
  | inr n ↦ rw n (set_req-Keeps rp s _)
]

pub pend-Keeps : (rp : ReqPtr) (s : Sim) (i : ℕ) (t : ReqType) → Keeps rp s (pend s i t)
pend-Keeps rp s i t = set_mshr-Keeps rp s i _ refl refl refl

-- A prefetch that is settled leaves the state, or rewrites the request.
prefetch_match-cases :
    (s : Sim) (rp : ReqPtr) (main : Req) (out : Response × Sim)
    → prefetch_match s rp main ≡ some out
    → (out.1 ≡ s) ⊎ ((r : Req) × (out.1 ≡ set_req s rp r))
unfolding prefetch_match
prefetch_match-cases s rp main out h = grind arith

pub stall_on_war-Keeps :
    (pm : Params) (s : Sim) (rp : ReqPtr) (r : Req) (i : ℕ) → Keeps rp s (stall_on_war pm s r i).1
unfolding stall_on_war
stall_on_war-Keeps pm s rp r i =
    elim (Bool-cases
      (not r.prefetch || not (pm.discriminate_prefetch && not (is_second s.cache.level)))) [
        | inl y ↦ rw y (
            Keeps-trans
              (count_stat-Keeps rp pm
                (λ t. record t { pipe_stall_mshr_war = t.pipe_stall_mshr_war + 1 }) s)
              (set_mshr-Keeps rp (count_war pm s) i _ refl refl refl))
        | inr n ↦ rw n (Keeps-refl rp s)
      ]

cohe_on_read-Keeps : (rp : ReqPtr) (s : Sim) (r : Req) (i : ℕ) → Keeps rp s (cohe_on_read s r i).1
unfolding cohe_on_read
cohe_on_read-Keeps rp s r i = elim (Bool-cases (is_cohe_reply r.trans)) [
  | inl y ↦ elim (Bool-cases (not (is_victim r.req_type))) [
    | inl v ↦ elim (Bool-cases r.nack_nok) [
      | inl k ↦ rw (y, v, k) (Keeps-refl rp s)
      | inr k ↦ rw (y, v, k) (pend-Keeps rp s i r.req_type)
    ]
    | inr v ↦ rw (y, v) (pend-Keeps rp s i ReqType.invl)
  ]
  | inr n ↦ rw n (Keeps-refl rp s)
]

cohe_on_exclusive-Keeps :
    (rp : ReqPtr) (s : Sim) (r : Req) (i : ℕ) → Keeps rp s (cohe_on_exclusive s r i).1
unfolding cohe_on_exclusive
cohe_on_exclusive-Keeps rp s r i = elim (Bool-cases (r.nack_nok && is_cohe_reply r.trans)) [
  | inl y ↦ elim (Bool-cases (is_wt s.cache.level)) [
    | inl w ↦ rw (y, w) (pend-Keeps rp s i r.req_type)
    | inr w ↦ rw (y, w) (Keeps-refl rp s)
  ]
  | inr n ↦ rw n (Keeps-refl rp s)
]

pub cohe_matched-Keeps :
    (rp : ReqPtr) (s : Sim) (r : Req) (i : ℕ) → OnOk (λ out. Keeps rp s out.1) (cohe_matched s r i)
unfolding cohe_matched
cohe_matched-Keeps rp s r i =
    let main = main_of s (s.cache.mshrs i) in
    let go : Keeps rp s
        (if is_read main.prcr_req_type then cohe_on_read s r i else cohe_on_exclusive s r i).1 =
      elim (Bool-cases (is_read main.prcr_req_type)) [
        | inl y ↦ rw y (cohe_on_read-Keeps rp s r i)
        | inr n ↦ rw n (cohe_on_exclusive-Keeps rp s r i)
      ] in
    elim (Bool-cases (meets_victim r)) [
      | inl v ↦ elim (Bool-cases (is_stale_wrb s r)) [
        | inl y ↦ rw (v, y) (Keeps-refl rp s)
        | inr n ↦ elim (Bool-cases (is_wb s.cache.level)) [
          | inl w ↦ rw (v, n, w) go
          | inr w ↦ rw (v, n, w) tt
        ]
      ]
      | inr v ↦ rw v go
    ]

pub cohe_case-Keeps :
    (rp : ReqPtr) (s : Sim) (r : Req) (match : Option ℕ)
    → OnOk (λ out. Keeps rp s out.1) (cohe_case s r match)
unfolding cohe_case
cohe_case-Keeps rp s r none = Keeps-refl rp s
cohe_case-Keeps rp s r (some i) = cohe_matched-Keeps rp s r i

pub prefetch_match-Keeps :
    (s : Sim) (rp : ReqPtr) (main : Req) (out : Response × Sim)
    → prefetch_match s rp main ≡ some out
    → Keeps rp s out.1
prefetch_match-Keeps s rp main out h = elim (prefetch_match-cases s rp main out h) [
  | inl e ↦ rw e (Keeps-refl rp s)
  | inr p ↦ rw p.1 (set_req-Keeps rp s p.0)
]
