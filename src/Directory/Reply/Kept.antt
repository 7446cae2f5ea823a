-- ===== src/Directory/Reply/Kept.antt =====
-- DIRCOHEREP and DIRWRB (MemSys/directory.c) keep the directory's lines valid.
use rsim.Prelude.{
  ℕ, ◌-◌, Bool, true, false, not, ◌&&◌, ◌||◌, Option, none, some, ◌==◌, if_elim, is_some,
}
use rsim.Prelude.Result.{Result, OnOk, OnOk->>=, OnOk-bind}
use rsim.Directory.{
  DirLine, Dir, DirEp, Params, Response, Answer, NackSt, nack_ok, nack_nok, dir_private, set_line,
  no_reply, positive, rar, nack, nack_pend,
}
use rsim.Directory.Buffer.{dir_check_buf, commit_req, has_room}
use rsim.Directory.Buffer.Effect.{commit_req-OnOk, dir_check_buf-elim}
use rsim.Directory.Pending.{same_node}
use rsim.Directory.Cohe.{dir_cohe}
use rsim.Directory.Cohe.Lines.{Alone, rm_all_add_fm-Counted}
use rsim.Directory.Cohe.Invariant.{AllValid, put-IsValid, restated}
use rsim.Directory.Valid.{dir_cohe-AllValid}
use rsim.Directory.Serve.{Next}
use rsim.Directory.Serve.Kept.{NextValid, written-IsValid}
use rsim.Directory.Reply.{
  settle, send_or_queue, unforwarded, race_rar, again, resend, reply_for, late_reply, with_req,
  complete, is_ack, count_reply, on_nack, on_nack_pend, by_reply, with_extra, dir_cohe_rep,
  after_wrb, dir_wrb,
}

-- the transaction of a line is written
rewritten-AllValid :
    (a : ℕ) (pend : Bool) (x : Option DirEp) (d : Dir)
    → AllValid d
    → AllValid (set_line d a (record (d.lines a) { pend = pend; extra = x }))
rewritten-AllValid a pend x d v = record {
  roomy = v.roomy;
  valid =
      put-IsValid d.vec_index d.lines a _ v.valid
        (written-IsValid d.vec_index (d.lines a) pend x (v.valid a));
}

settle-AllValid : (a : ℕ) (d : Dir) → AllValid d → AllValid (settle a d)
settle-AllValid a d v = rewritten-AllValid a false none d v

check_buf-AllValid : (tag : ℕ) (d : Dir) → AllValid d → AllValid (dir_check_buf tag d)
check_buf-AllValid tag d v =
    dir_check_buf-elim AllValid tag d (λ n q b. record { roomy = v.roomy; valid = v.valid })

send_or_queue-Valid :
    (frees : Bool) (p : ℕ) (d : Dir) → AllValid d → NextValid (send_or_queue frees p d)
unfolding send_or_queue
send_or_queue-Valid frees p d v =
    if_elim NextValid (has_room d p) (λ _. record { roomy = v.roomy; valid = v.valid })
      (λ _. record { roomy = v.roomy; valid = v.valid })

race_rar-Valid : (p a : ℕ) (d : Dir) → AllValid d → OnOk NextValid (race_rar p a d)
unfolding race_rar
race_rar-Valid p a d v =
    OnOk-bind NextValid (Alone d (d.lines a)) _ _ (rm_all_add_fm-Counted d (d.lines a) _ _ v.roomy)
      (λ c q. OnOk->>= NextValid (unforwarded c.1 c.1.forward_to) _ (λ s eq.
        let l : DirLine = record (c.0) { state = dir_private } in
        let w : AllValid (set_line d a l) = record {
          roomy = v.roomy;
          valid =
              put-IsValid d.vec_index d.lines a l v.valid
                (restated d.vec_index c.0 dir_private q.0 q.1);
        } in
        let u = settle-AllValid a (set_line d a l) w in
        send_or_queue-Valid true p _
          (check_buf-AllValid s.tag _ (record { roomy = u.roomy; valid = u.valid }))))

again-Valid : (p a : ℕ) (d : Dir) (o : Option ℕ) → AllValid d → OnOk NextValid (again p a d o)
unfolding again
again-Valid p a d none v = tt
again-Valid p a d (some n) v = OnOk->>= NextValid (unforwarded _ (some n)) _ (λ s eq.
    let u = settle-AllValid a d v in
    check_buf-AllValid s.tag _ (record { roomy = u.roomy; valid = u.valid }))

reply_for-Valid :
    (a q : ℕ) (d : Dir) (o : Option ℕ) → AllValid d → OnOk NextValid (reply_for a q d o)
unfolding reply_for
reply_for-Valid a q d none v = tt
reply_for-Valid a q d (some b) v =
    let c = check_buf-AllValid (d.reqs q).tag d v in
    let u = rewritten-AllValid a false _ _ c in
    let w = rewritten-AllValid b _ none _ u in
    send_or_queue-Valid true q _ (record { roomy = w.roomy; valid = w.valid })

with_req-Valid :
    (o : Option ℕ) (f : ℕ → Result (Next × Dir))
    → ((q : ℕ) → OnOk NextValid (f q))
    → OnOk NextValid (with_req o f)
unfolding with_req
with_req-Valid none f h = tt
with_req-Valid (some q) f h = h q

complete-Valid :
    (rs : Response) (p a : ℕ) (x : DirEp) (d : Dir)
    → AllValid d
    → OnOk NextValid (complete rs p a x d)
unfolding complete late_reply
complete-Valid Response.dir_reply p a x d v =
    with_req-Valid x.pend_req _ (λ q. reply_for-Valid a q d (d.reqs q).dir_item v)
complete-Valid Response.visit_mem p a x d v =
    with_req-Valid x.pend_req _ (λ q. reply_for-Valid a q d (d.reqs q).dir_item v)
complete-Valid Response.special_reply p a x d v =
    with_req-Valid x.pend_req _ (λ q. reply_for-Valid a q d (d.reqs q).dir_item v)
complete-Valid Response.ack_reply p a x d v =
    if_elim (OnOk NextValid) (same_node x.pend_req p) (λ _. tt)
      (λ _.
        let u = settle-AllValid a _ (check_buf-AllValid (d.reqs p).tag d v) in
        record { roomy = u.roomy; valid = u.valid })
complete-Valid Response.wait_cnt p a x d v = tt
complete-Valid Response.wait_pend p a x d v = tt
complete-Valid Response.forward_request p a x d v = tt
complete-Valid Response.wait_for_wrb p a x d v = tt

count_reply-Valid :
    (p a : ℕ) (x : DirEp) (d : Dir) → AllValid d → OnOk NextValid (count_reply p a x d)
unfolding count_reply
count_reply-Valid p a x d v =
    let y : DirEp = record x { counter = x.counter - 1 } in
    let w = rewritten-AllValid a (d.lines a).pend (some y) d v in
    if_elim (OnOk NextValid)
      ((is_some (d.reqs p).forward_to && not (is_ack x.ret_st)) || (x.counter == 0)) (λ _. tt)
      (λ _.
        if_elim (OnOk NextValid) (y.counter == 0)
          (λ _. complete-Valid y.ret_st p a y _ (record { roomy = w.roomy; valid = w.valid }))
          (λ _. w))

module _ (p a : ℕ) (x : DirEp) (d : Dir) (v : AllValid d) where
  on_nack-Valid : (st : NackSt) → OnOk NextValid (on_nack st p a x d)
  unfolding on_nack
  on_nack-Valid nack_ok = count_reply-Valid p a x d v
  on_nack-Valid nack_nok =
      if_elim (OnOk NextValid) (same_node x.was_here (d.reqs p).src_node)
        (λ _. again-Valid p a d (d.reqs p).forward_to v)
        (λ _.
          if_elim (OnOk NextValid) (same_node x.pend_req p) (λ _. race_rar-Valid p a d v) (λ _. tt))

  on_nack_pend-Valid : (st : NackSt) → OnOk NextValid (on_nack_pend st p a x d)
  unfolding on_nack_pend resend
  on_nack_pend-Valid nack_ok = tt
  on_nack_pend-Valid nack_nok =
      if_elim (OnOk NextValid) (same_node x.was_here (d.reqs p).src_node)
        (λ _. again-Valid p a d (d.reqs p).forward_to v)
        (λ _. send_or_queue-Valid false p _ (record { roomy = v.roomy; valid = v.valid }))

  by_reply-Valid : (r : Answer) → OnOk NextValid (by_reply r p a x d)
  unfolding by_reply
  by_reply-Valid nack = on_nack-Valid x.nack_st
  by_reply-Valid nack_pend =
      if_elim (OnOk NextValid) (x.counter == 0) (λ _. tt) (λ _. on_nack_pend-Valid x.nack_st)
  by_reply-Valid positive =
      if_elim (OnOk NextValid) (x.counter == 0) (λ _. tt) (λ _. count_reply-Valid p a x d v)
  by_reply-Valid no_reply = tt
  by_reply-Valid rar = tt

-- DIRCOHEREP keeps every line of the directory valid.
pub dir_cohe_rep-Valid : (p : ℕ) (d : Dir) → AllValid d → OnOk NextValid (dir_cohe_rep p d)
unfolding dir_cohe_rep with_extra
dir_cohe_rep-Valid p d v = with_req-Valid (d.reqs p).dir_item _ (λ a.
    OnOk-bind NextValid AllValid (commit_req p d) _
      (commit_req-OnOk AllValid p d (λ ports. record { roomy = v.roomy; valid = v.valid }))
      (λ e w. at_extra a e w (e.lines a).extra))
  where
    at_extra :
        (a : ℕ) (e : Dir)
        → AllValid e
        → (o : Option DirEp)
        → OnOk NextValid (with_extra o (λ (x : DirEp). by_reply (e.reqs p).reply p a x e))
    at_extra a e w none = tt
    at_extra a e w (some x) = by_reply-Valid p a x e w (e.reqs p).reply

after_wrb-Valid :
    (p a : ℕ) (d : Dir) (o : Option DirEp) → AllValid d → OnOk NextValid (after_wrb p a o d)
unfolding after_wrb
after_wrb-Valid p a d none v = check_buf-AllValid _ _ (rewritten-AllValid a false _ d v)
after_wrb-Valid p a d (some x) v =
    if_elim (OnOk NextValid) (same_node x.pend_req p) (λ _. tt)
      (λ _.
        if_elim (OnOk NextValid) x.waiting (λ _. check_buf-AllValid _ _ (settle-AllValid a d v))
          (λ _. v))

-- DIRWRB keeps every line of the directory valid.
pub dir_wrb-Valid : (pm : Params) (p : ℕ) (d : Dir) → AllValid d → OnOk NextValid (dir_wrb pm p d)
unfolding dir_wrb
dir_wrb-Valid pm p d v =
    OnOk-bind NextValid AllValid (commit_req p d) _
      (commit_req-OnOk AllValid p d (λ ports. record { roomy = v.roomy; valid = v.valid }))
      (λ e w.
        OnOk-bind NextValid (λ (out : Response × ℕ × Dir). AllValid out.2) (dir_cohe pm p e) _
          (dir_cohe-AllValid pm p e w) (λ c u. after_wrb-Valid p c.1 c.2 (c.2.lines c.1).extra u))
