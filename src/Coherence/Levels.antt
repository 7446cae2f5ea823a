-- ===== src/Coherence/Levels.antt =====
-- The caches of a node, each with its coherence routine and coherence type (MemSys/architecture.c
-- makes an L1 cache with `cohe_pr` and an L2 cache with `cohe_sl`), and the line states that
-- accesses lead to.
use rsim.Prelude.{ℕ, ◌≡◌, ◌≢◌, refl, Bool, true, false, ◌||◌, not}
use rsim.Prelude.Result.{Result, ok, fatal}
use rsim.Req.{
  ReqType, CacheLineState, bad_line_state, invalid, pr_cl, sh_cl, pr_dy, is_line, pr_wt, pr_wb,
  wb_nref, Protocol, Hints,
}
use rsim.Req.Finite.{each_row, ext_row}
use rsim.Coherence.Table.{Config}
use rsim.Coherence.{Outcome, cohe_sl, cohe_pr}

pub data Level : Type 0 where
  l1_wt l1_wb l2 : Level

abbrev pub routine : Config → Level → CacheLineState → Bool → ReqType → Result Outcome
routine c l1_wt s allo r = cohe_pr c s allo r pr_wt
routine c l1_wb s allo r = cohe_pr c s allo r pr_wb
routine c l2 s allo r = cohe_sl c s allo r wb_nref

-- The states of a line that starts INVALID, over any accesses: each access that settles a state
-- (BAD_LINE_STATE leaves it open) moves the line there.
pub data Reach (c : Config) (v : Level) : CacheLineState → Type 0 where
  absent : {t : CacheLineState} → t ≡ invalid → Reach c v t
  next :
      {s t : CacheLineState}
      → Reach c v s
      → (allo : Bool) (r : ReqType) (o : Outcome) → routine c v s allo r ≡ ok o
      → t ≡ o.nxt_st
      → t ≢ bad_line_state
      → Reach c v t

-- the states that a cache uses: a write-through cache has no shared and no dirty lines, and under
-- MSI the L2 cache has no private clean ones
abbrev pub uses : Protocol → Level → CacheLineState → Bool
uses p l1_wt s = is_line s invalid || is_line s pr_cl
uses p l1_wb s = is_line s invalid || (is_line s sh_cl || (is_line s pr_cl || is_line s pr_dy))
uses Protocol.mesi l2 s =
    is_line s invalid || (is_line s sh_cl || (is_line s pr_cl || is_line s pr_dy))
uses Protocol.msi l2 s = is_line s invalid || (is_line s sh_cl || is_line s pr_dy)

abbrev settles : Protocol → Level → Result Outcome → Bool
settles p v (ok o) = is_line o.nxt_st bad_line_state || uses p v o.nxt_st
settles p v fatal = true

-- an access in a state that the cache uses settles on such a state
abbrev keeps : Config → Level → CacheLineState → Bool → ReqType → Bool
keeps c v s allo r = not (uses c.cc_protocol v s) || settles c.cc_protocol v (routine c v s allo r)

abbrev config : ℕ → ℕ → Protocol → Hints → Config
config q l p h = record { req_sz = q; line_sz = l; cc_protocol = p; replacement_hints = h }

keeps_rows :
    (q l : ℕ) (p : Protocol) (h : Hints) (v : Level)
    → each_row (keeps (config q l p h) v) ≡ each_row (λ s a r. true)
unfolding cohe_sl cohe_pr
keeps_rows q l Protocol.mesi Hints.hints_none l1_wt = refl
keeps_rows q l Protocol.mesi Hints.hints_none _ = refl
keeps_rows q l Protocol.mesi Hints.hints_excl l1_wt = refl
keeps_rows q l Protocol.mesi Hints.hints_excl _ = refl
keeps_rows q l Protocol.mesi Hints.hints_all l1_wt = refl
keeps_rows q l Protocol.mesi Hints.hints_all _ = refl
keeps_rows q l Protocol.msi Hints.hints_none l1_wt = refl
keeps_rows q l Protocol.msi Hints.hints_none _ = refl
keeps_rows q l Protocol.msi Hints.hints_excl l1_wt = refl
keeps_rows q l Protocol.msi Hints.hints_excl _ = refl
keeps_rows q l Protocol.msi Hints.hints_all l1_wt = refl
keeps_rows q l Protocol.msi Hints.hints_all _ = refl

keeps_true :
    (c : Config) (v : Level) (s : CacheLineState) (a : Bool) (r : ReqType) → keeps c v s a r ≡ true
keeps_true c v =
    ext_row (keeps c v) (λ s a r. true)
      (keeps_rows c.req_sz c.line_sz c.cc_protocol c.replacement_hints v)

settled :
    (p : Protocol) (v : Level) (s t : CacheLineState)
    → (not (uses p v s) || (is_line t bad_line_state || uses p v t)) ≡ true
    → uses p v s ≡ true
    → t ≢ bad_line_state
    → uses p v t ≡ true
settled p v s bad_line_state k u b = absurd (b refl)
settled p v s _ k u b = rw u at k

-- Every state that accesses lead to, from an INVALID line, is one that the cache uses: a
-- write-through cache never holds a line shared or dirty, the L2 cache never holds one private and
-- clean under the MSI protocol, and no cache enters SH_DY.
pub Reach-uses :
    {c : Config} {v : Level} {t : CacheLineState} → Reach c v t → uses c.cc_protocol v t ≡ true
Reach-uses {c} {v = l1_wt} (absent e) = rw e
Reach-uses {c} {v = l1_wb} (absent e) = rw e
Reach-uses {c} {v = l2} (absent e) = rw e (start c.cc_protocol)
  where
    start : (p : Protocol) → uses p l2 invalid ≡ true
    start Protocol.mesi = refl
    start Protocol.msi = refl
Reach-uses {c} {v} (next {s} h a r o e n b) =
    let k : (not (uses c.cc_protocol v s) || settles c.cc_protocol v (ok o)) ≡ true =
      rw e at (keeps_true c v s a r) in
    rw n (settled c.cc_protocol v s o.nxt_st k (Reach-uses h) (rw n at b))

-- the requests of a processor, the demands of the directory and victimization
abbrev pub is_access : ReqType → Bool
is_access ReqType.read = true
is_access ReqType.write = true
is_access ReqType.rmw = true
is_access ReqType.l1write_prefetch = true
is_access ReqType.l1read_prefetch = true
is_access ReqType.l2write_prefetch = true
is_access ReqType.l2read_prefetch = true
is_access ReqType.copyback = true
is_access ReqType.copyback_invl = true
is_access ReqType.invl = true
is_access ReqType.repl = true
is_access _ = false

abbrev is_ok : Result Outcome → Bool
is_ok (ok o) = true
is_ok fatal = false

abbrev answers : Config → Level → CacheLineState → Bool → ReqType → Bool
answers c v s allo r =
    not (uses c.cc_protocol v s) || (not (is_access r) || is_ok (routine c v s allo r))

answers_rows :
    (q l : ℕ) (p : Protocol) (h : Hints) (v : Level)
    → each_row (answers (config q l p h) v) ≡ each_row (λ s a r. true)
unfolding cohe_sl cohe_pr
answers_rows q l Protocol.mesi Hints.hints_none l1_wt = refl
answers_rows q l Protocol.mesi Hints.hints_none _ = refl
answers_rows q l Protocol.mesi Hints.hints_excl l1_wt = refl
answers_rows q l Protocol.mesi Hints.hints_excl _ = refl
answers_rows q l Protocol.mesi Hints.hints_all l1_wt = refl
answers_rows q l Protocol.mesi Hints.hints_all _ = refl
answers_rows q l Protocol.msi Hints.hints_none l1_wt = refl
answers_rows q l Protocol.msi Hints.hints_none _ = refl
answers_rows q l Protocol.msi Hints.hints_excl l1_wt = refl
answers_rows q l Protocol.msi Hints.hints_excl _ = refl
answers_rows q l Protocol.msi Hints.hints_all l1_wt = refl
answers_rows q l Protocol.msi Hints.hints_all _ = refl

ok_of_is_ok : (m : Result Outcome) → is_ok m ≡ true → (o : Outcome) × (m ≡ ok o)
ok_of_is_ok (ok o) h = (o, refl)
ok_of_is_ok fatal h = cc

-- In every state that accesses lead to, each request of a processor, each demand of the directory
-- and each victimization is answered: `YS__errmsg` is not reached.
pub Reach-answers :
    {c : Config} {v : Level} {s : CacheLineState} (allo : Bool) (r : ReqType)
    → Reach c v s
    → is_access r ≡ true
    → (o : Outcome) × (routine c v s allo r ≡ ok o)
Reach-answers {c} {v} {s} allo r h a =
    let k : (not (uses c.cc_protocol v s) || (not (is_access r) || is_ok (routine c v s allo r)))
        ≡ true =
      ext_row (answers c v) (λ s a r. true)
        (answers_rows c.req_sz c.line_sz c.cc_protocol c.replacement_hints v) s allo r in
    ok_of_is_ok (routine c v s allo r) (rw (Reach-uses h, a) at k)
