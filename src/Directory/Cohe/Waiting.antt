-- ===== src/Directory/Cohe/Waiting.antt =====
-- `Dir_Cohe` (MemSys/directory.c) keeps the lines valid at a line that is pending, and so at all.
use rsim.Prelude.{ℕ, Option, none, some, ◌==◌, if_elim}
use rsim.Prelude.Result.{OnOk, OnOk-bind}
use rsim.Req.{ReqType}
use rsim.Directory.{Dir, DirEp, Params, Response}
use rsim.Directory.Sharers.Count.{IsValid}
use rsim.Directory.Pending.{same_node, met_pending, revive_req, is_wrb}
use rsim.Directory.Cohe.{on_pending, cohe_line}
use rsim.Directory.Cohe.Invariant.{AllValid, put-IsValid}
use rsim.Directory.Cohe.Valid.{by_type-Kept}

module _ (pm : Params) (p a : ℕ) where
  -- a transaction's structure is written
  rewritten :
      (d : Dir) (y : DirEp)
      → AllValid d
      → IsValid d.vec_index (record (d.lines a) { extra = some y })
  rewritten d y v = record { counted = (v.valid a).counted; fits = (v.valid a).fits }

  revive_req-Kept :
      (d : Dir) (x : DirEp) (t : Option ℕ) → AllValid d → OnOk AllValid (revive_req p a x d t)
  unfolding revive_req
  revive_req-Kept d x none v = tt
  revive_req-Kept d x (some t) v =
      if_elim (OnOk AllValid) (x.counter == 1)
        (λ _. record {
          roomy = v.roomy;
          valid = put-IsValid d.vec_index d.lines a _ v.valid (rewritten d _ v);
        })
        (λ _. tt)

  met_pending-Kept : (d : Dir) (x : DirEp) → AllValid d → OnOk AllValid (met_pending p a x d)
  unfolding met_pending
  met_pending-Kept d x v =
      if_elim (OnOk AllValid) x.waiting
        (λ _.
          if_elim (OnOk AllValid) (same_node x.waiting_for (d.reqs p).src_node)
            (λ _. revive_req-Kept d x x.pend_req v) (λ _. tt))
        (λ _. record {
          roomy = v.roomy;
          valid = put-IsValid d.vec_index d.lines a _ v.valid (rewritten d _ v);
        })

  on_pending-AllValid :
      (t : ReqType) (d : Dir) (x : Option DirEp)
      → AllValid d
      → OnOk (λ (out : Response × Dir). AllValid out.1) (on_pending pm t p a d x)
  unfolding on_pending
  on_pending-AllValid t d none v = v
  on_pending-AllValid t d (some x) v =
      if_elim (OnOk (λ (out : Response × Dir). AllValid out.1)) (is_wrb t)
        (λ _.
          OnOk-bind (λ (out : Response × Dir). AllValid out.1) AllValid (met_pending p a x d) _
            (met_pending-Kept d x v) (λ f w. by_type-Kept pm p a t f w))
        (λ _. v)

  pub cohe_line-AllValid :
      (d : Dir) → AllValid d → OnOk (λ (out : Response × Dir). AllValid out.1) (cohe_line pm p a d)
  unfolding cohe_line
  cohe_line-AllValid d v =
      if_elim (OnOk (λ (out : Response × Dir). AllValid out.1)) (d.lines a).pend
        (λ _. on_pending-AllValid (d.reqs p).req_type d (d.lines a).extra v)
        (λ _. by_type-Kept pm p a (d.reqs p).req_type d v)
