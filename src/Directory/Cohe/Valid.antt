-- ===== src/Directory/Cohe/Valid.antt =====
-- `Dir_Cohe` (MemSys/directory.c) keeps the directory's lines valid at a line that is not pending.
use rsim.Prelude.{ℕ, ◌-◌, ◌≡◌, refl, Bool, not, none, some, ◌==◌, if◌then◌else◌, if_elim, arith}
use rsim.Prelude.Result.{Result, ok, ◌>>=◌, OnOk, OnOk-bind}
use rsim.Req.{ReqType}
use rsim.Directory.{
  DirLine, Dir, DirEp, Params, Req, Response, visit_mem, wait_cnt, forward_request, dir_reply,
  LineState, uncached, dir_shared, dir_private, set_line,
}
use rsim.Directory.Sharers.{add_fm, rm_all_add_fm, rm_all_fm, find_fm}
use rsim.Directory.Sharers.Count.{Fits}
use rsim.Directory.Pending.{put_both, wait_wrb, waiting_line, set_extra}
use rsim.Directory.Cohe.{read_sh, read_own, upgrade, as_read_own, wrb_repl, by_type}
use rsim.Directory.Cohe.Lines.{
  Counted, Added, Alone, Emptied, add_fm-Counted, rm_all_add_fm-Counted, rm_all_fm-Counted,
}
use rsim.Directory.Cohe.Invariant.{
  AllValid, put-IsValid, restated, grant-Fits, uncached-Fits, and_left, Kept,
}

module _ (pm : Params) (p a : ℕ) (d : Dir) (v : AllValid d) where
  abbrev Out : Response × Dir → Type 0
  Out = Kept

  put_line :
      (rs : Response) (x : DirEp) (k : DirLine) (r : Req) (st : LineState)
      → Counted d.vec_index k
      → Fits st k.numsharers
      → Out (rs, put_both (set_extra d x) a (record k { state = st }) p r)
  put_line rs x k r st c fits = record {
    roomy = v.roomy;
    valid =
        put-IsValid d.vec_index d.lines a (record k { state = st }) v.valid
          (restated d.vec_index k st c fits);
  }

  wait-Kept : (x : DirEp) → Out (wait_wrb p a (set_extra d x))
  unfolding wait_wrb
  wait-Kept x =
      let l = v.valid a in
      record {
        roomy = v.roomy;
        valid =
            put-IsValid d.vec_index d.lines a (waiting_line p a (set_extra d x)) v.valid
              (record { counted = l.counted; fits = l.fits });
      }

  after_add :
      (k : Bool × DirLine × Req → Result (Response × Dir))
      → ((c : Bool × DirLine × Req) → Added d (d.lines a) c → OnOk Out (k c))
      → OnOk Out (add_fm d (d.lines a) (d.reqs p).src_node (d.reqs p) >>= k)
  after_add k h =
      OnOk-bind Out (Added d (d.lines a)) _ k
        (add_fm-Counted d (d.lines a) (d.reqs p).src_node (d.reqs p) v.roomy (v.valid a).counted) h

  after_rm_all_add :
      (k : DirLine × Req → Result (Response × Dir))
      → ((c : DirLine × Req) → Alone d (d.lines a) c → OnOk Out (k c))
      → OnOk Out (rm_all_add_fm d (d.lines a) (d.reqs p).src_node (d.reqs p) >>= k)
  after_rm_all_add k h =
      OnOk-bind Out (Alone d (d.lines a)) _ k
        (rm_all_add_fm-Counted d (d.lines a) (d.reqs p).src_node (d.reqs p) v.roomy) h

  owned :
      (rs : Response) (x : DirEp) (c : DirLine × Req) (r : Req)
      → Alone d (d.lines a) c
      → Out (rs, put_both (set_extra d x) a (record (c.0) { state = dir_private }) p r)
  owned rs x c r q = put_line rs x c.0 r dir_private q.0 q.1

  -- the first sharer of an uncached line
  first :
      (d.lines a).state ≡ uncached
      → (c : Bool × DirLine × Req) → Added d (d.lines a) c
      → c.1.numsharers ≡ 1
  first e c q =
      let none_before : (d.lines a).numsharers ≡ 0 = uncached-Fits _ _ (v.valid a).fits e in
      omega (arith, q.1, q.2)

  read_sh-Kept : (st : LineState) → (d.lines a).state ≡ st → OnOk Out (read_sh pm st p a d)
  unfolding read_sh
  read_sh-Kept uncached e =
      after_add _ (λ c q. put_line visit_mem _ c.1 _ _ q.0 (grant-Fits _ _ q.1 (λ _. first e c q)))
  read_sh-Kept dir_shared e = after_add _ (λ c q.
      put_line visit_mem _ c.1 _ _ q.0 (grant-Fits _ _ q.1 (λ excl. q.4 (and_left c.0 _ excl))))
  read_sh-Kept dir_private e =
      let s = find_fm d (d.lines a) (some d.extra.node_ary) (d.reqs p).src_node in
      if_elim (OnOk Out) (not (s.find == 1)) (λ _. tt)
        (λ _.
          if_elim (OnOk Out) s.node_copy (λ _. wait-Kept _)
            (λ _. after_add _ (λ c q. put_line forward_request _ c.1 _ dir_shared q.0 (q.1))))

  read_own-Kept : (st : LineState) → (d.lines a).state ≡ st → OnOk Out (read_own pm st p a d)
  unfolding read_own
  read_own-Kept uncached e = after_add _ (λ c q. put_line visit_mem _ c.1 _ _ q.0 (first e c q))
  read_own-Kept dir_shared e =
      let s = find_fm d (d.lines a) (some d.extra.node_ary) (d.reqs p).src_node in
      let others : ℕ = if s.node_copy then s.find - 1 else s.find in
      if_elim (OnOk Out) (s.find == 0) (λ _. tt)
        (λ _. after_rm_all_add _ (λ c q.
          if_elim (OnOk Out) (others == 0) (λ _. owned visit_mem _ c _ q)
            (λ _. owned wait_cnt _ c _ q)))
  read_own-Kept dir_private e =
      let s = find_fm d (d.lines a) (some d.extra.node_ary) (d.reqs p).src_node in
      if_elim (OnOk Out) (not (s.find == 1)) (λ _. tt)
        (λ _.
          if_elim (OnOk Out) s.node_copy (λ _. wait-Kept _)
            (λ _. after_rm_all_add _ (λ c q. owned forward_request _ c _ q)))

module _ (pm : Params) (p a : ℕ) where
  as_read_own-Kept : (d : Dir) → AllValid d → OnOk Kept (as_read_own pm p a d)
  unfolding as_read_own
  as_read_own-Kept d v =
      read_own-Kept pm p a _ (record { roomy = v.roomy; valid = v.valid }) (d.lines a).state refl

  upgrade-Kept :
      (st : LineState) (d : Dir)
      → AllValid d
      → (d.lines a).state ≡ st
      → OnOk Kept (upgrade pm st p a d)
  unfolding upgrade
  upgrade-Kept uncached d v e = as_read_own-Kept d v
  upgrade-Kept dir_private d v e = as_read_own-Kept d v
  upgrade-Kept dir_shared d v e =
      let s = find_fm d (d.lines a) (some d.extra.node_ary) (d.reqs p).src_node in
      if_elim (OnOk Kept) (s.find == 0) (λ _. tt)
        (λ _.
          if_elim (OnOk Kept) (not s.node_copy)
            (λ _. as_read_own-Kept _ (record { roomy = v.roomy; valid = v.valid }))
            (λ _. after_rm_all_add pm p a d v _ (λ c q.
              if_elim (OnOk Kept) (s.find - 1 == 0) (λ _. owned pm p a d v dir_reply _ c _ q)
                (λ _. owned pm p a d v wait_cnt _ c _ q))))

  emptied :
      (d : Dir)
      → AllValid d
      → OnOk Kept (
          rm_all_fm d (d.lines a) (d.reqs p).src_node >>= (λ (l : DirLine).
            ok (Response.visit_mem, set_line d a (record l { state = uncached }))))
  emptied d v =
      OnOk-bind Kept (Emptied d (d.lines a)) _ _
        (rm_all_fm-Counted d (d.lines a) (d.reqs p).src_node)
        (λ l q. record {
          roomy = v.roomy;
          valid =
              put-IsValid d.vec_index d.lines a (record l { state = uncached }) v.valid
                (restated d.vec_index l uncached q.0 q.1);
        })

  wrb_repl-Kept : (st : LineState) (d : Dir) → AllValid d → OnOk Kept (wrb_repl st p a d)
  unfolding wrb_repl
  wrb_repl-Kept uncached d v = tt
  wrb_repl-Kept dir_shared d v = emptied d v
  wrb_repl-Kept dir_private d v =
      if_elim (OnOk Kept) (not ((find_fm d (d.lines a) none (d.reqs p).src_node).find == 1))
        (λ _. tt) (λ _. emptied d v)

  pub by_type-Kept : (t : ReqType) (d : Dir) → AllValid d → OnOk Kept (by_type pm t p a d)
  unfolding by_type
  by_type-Kept ReqType.read_sh d v = read_sh-Kept pm p a d v (d.lines a).state refl
  by_type-Kept ReqType.upgrade d v = upgrade-Kept (d.lines a).state d v refl
  by_type-Kept ReqType.read_own d v = read_own-Kept pm p a d v (d.lines a).state refl
  by_type-Kept ReqType.wrb d v = wrb_repl-Kept (d.lines a).state d v
  by_type-Kept ReqType.repl d v = wrb_repl-Kept (d.lines a).state d v
  by_type-Kept _ d v = tt
