-- ===== src/Directory/Serve/Kept.antt =====
-- DIRREQ, DIRSENDREQ, DIROUTBOUND and DIRSENDCOHE (MemSys/directory.c) keep the directory's lines valid.
use rsim.Prelude.{
  ℕ, zero, suc, ◌+◌, true, not, ◌&&◌, ◌||◌, Bool, Option, none, some, ◌==◌, ltb, if_elim,
}
use rsim.Prelude.Result.{OnOk, OnOk->>=, OnOk-bind}
use rsim.Directory.{
  DirLine, Dir, DirEp, Params, Response, wait_cnt, wait_pend, visit_mem, dir_reply, positive,
  special_reply, forward_request, ack_reply, wait_for_wrb, set_line, set_req,
}
use rsim.Directory.Sharers.Count.{IsValid}
use rsim.Directory.Buffer.{dir_add_buf, req_set_handled, dir_commit_req, has_room, add_out}
use rsim.Directory.Buffer.Effect.{dir_commit_req-OnOk, add_out-OnOk}
use rsim.Directory.Cohe.{dir_cohe}
use rsim.Directory.Cohe.Invariant.{AllValid, put-IsValid}
use rsim.Directory.Valid.{dir_cohe-AllValid}
use rsim.Directory.Serve.{
  Next, answer_at_once, as_reply, give_reply, start_cohe, pause, tell_sharers, forward, respond,
  dir_req, send_one, send_next, send_from, send_line, dir_send_cohe, cohe_message, is_cohe,
}

abbrev pub NextValid : Next × Dir → Type 0
NextValid out = AllValid out.1

-- a line with its transaction written: its sharers are as before
pub written-IsValid :
    (words : ℕ) (l : DirLine) (pend : Bool) (x : Option DirEp)
    → IsValid words l
    → IsValid words (record l { pend = pend; extra = x })
written-IsValid words l pend x v = record { counted = v.counted; fits = v.fits }

commit-AllValid : (p : ℕ) (d : Dir) → AllValid d → OnOk AllValid (dir_commit_req p d)
commit-AllValid p d v =
    dir_commit_req-OnOk AllValid p d (λ ports. record { roomy = v.roomy; valid = v.valid })
      (λ e n q. record { roomy = v.roomy; valid = v.valid })

answer_at_once-Valid : (p : ℕ) (d : Dir) → AllValid d → OnOk NextValid (answer_at_once p d)
unfolding answer_at_once
answer_at_once-Valid p d v =
    if_elim (OnOk NextValid) (has_room d p)
      (λ _.
        OnOk-bind NextValid AllValid (dir_commit_req p d) _ (commit-AllValid p d v)
          (λ e w. record { roomy = w.roomy; valid = w.valid }))
      (λ _. record { roomy = v.roomy; valid = v.valid })

give_reply-Valid : (p a : ℕ) (d : Dir) → AllValid d → OnOk NextValid (give_reply p a d)
unfolding give_reply
give_reply-Valid p a d v =
    let r = d.reqs p in
    OnOk->>= NextValid (req_set_handled r (not (r.src_node == r.dest_node)) 0) _ (λ h eq.
      let l : DirLine = record (d.lines a) { extra = none } in
      let e : Dir =
        set_req (set_line d a l) p (record (as_reply positive h) { size_st = h.size_req }) in
      let w : AllValid e = record {
        roomy = v.roomy;
        valid =
            put-IsValid d.vec_index d.lines a l v.valid
              (record { counted = (v.valid a).counted; fits = (v.valid a).fits });
      } in
      if_elim (OnOk NextValid) (has_room e p)
        (λ _.
          OnOk-bind NextValid AllValid (dir_commit_req p e) _ (commit-AllValid p e w)
            (λ f u. record { roomy = u.roomy; valid = u.valid }))
        (λ _. record { roomy = w.roomy; valid = w.valid }))

pause-Valid : (delay p : ℕ) (d : Dir) → AllValid d → NextValid (pause delay p d)
pause-Valid delay p d v =
    if_elim NextValid (delay == 0) (λ _. v) (λ _. record { roomy = v.roomy; valid = v.valid })

start_cohe-AllValid : (p a : ℕ) (d : Dir) → AllValid d → AllValid (start_cohe p a d)
start_cohe-AllValid p a d v = record {
  roomy = v.roomy;
  valid =
      put-IsValid d.vec_index d.lines a _ v.valid
        (written-IsValid d.vec_index (d.lines a) true _ (v.valid a));
}

tell_sharers-Valid :
    (pm : Params) (p a : ℕ) (d : Dir) → AllValid d → OnOk NextValid (tell_sharers pm p a d)
unfolding tell_sharers
tell_sharers-Valid pm p a d v =
    OnOk-bind NextValid AllValid (dir_commit_req p d) _ (commit-AllValid p d v) (λ e w.
      OnOk->>= NextValid (req_set_handled (e.reqs p) _ _) _ (λ h eq.
        let u = start_cohe-AllValid p a e w in
        pause-Valid pm.pkt_create_time p _ (record { roomy = u.roomy; valid = u.valid })))

forward-Valid : (pm : Params) (p a : ℕ) (d : Dir) → AllValid d → OnOk NextValid (forward pm p a d)
unfolding forward
forward-Valid pm p a d v =
    OnOk-bind NextValid AllValid (dir_commit_req p d) _ (commit-AllValid p d v) (λ e w.
      let u = start_cohe-AllValid p a e w in
      pause-Valid pm.pkt_create_time p _ (record { roomy = u.roomy; valid = u.valid }))

respond-Valid :
    (pm : Params) (rs : Response) (p a : ℕ) (d : Dir)
    → AllValid d
    → OnOk NextValid (respond pm rs p a d)
unfolding respond dir_add_buf
respond-Valid pm dir_reply p a d k = give_reply-Valid p a d k
respond-Valid pm visit_mem p a d k = give_reply-Valid p a d k
respond-Valid pm wait_for_wrb p a d k =
    OnOk-bind NextValid AllValid (dir_commit_req p d) _ (commit-AllValid p d k) (λ e w. w)
respond-Valid pm wait_pend p a d k =
    OnOk-bind NextValid AllValid (dir_commit_req p d) _ (commit-AllValid p d k) (λ e w.
      OnOk-bind NextValid AllValid (dir_add_buf e p) _
        (if_elim (OnOk AllValid)
          (((e.buftotsz == e.bufmaxsz) && not e.was_pending) || ltb e.bufmaxsz e.buftotsz) (λ _. tt)
          (λ _. record { roomy = w.roomy; valid = w.valid }))
        (λ f u. u))
respond-Valid pm wait_cnt p a d k = tell_sharers-Valid pm p a d k
respond-Valid pm forward_request p a d k = forward-Valid pm p a d k
respond-Valid pm special_reply p a d k = tt
respond-Valid pm ack_reply p a d k = tt

-- DIRREQ keeps every line of the directory valid.
pub dir_req-Valid : (pm : Params) (p : ℕ) (d : Dir) → AllValid d → OnOk NextValid (dir_req pm p d)
unfolding dir_req
dir_req-Valid pm p d v =
    let r = d.reqs p in
    if_elim (OnOk NextValid) r.preprocessed
      (λ _.
        if_elim (OnOk NextValid) d.was_pending (λ _. tt)
          (λ _. answer_at_once-Valid p _ (record { roomy = v.roomy; valid = v.valid })))
      (λ _.
        if_elim (OnOk NextValid) r.dirdone (λ _. tt)
          (λ _.
            if_elim (OnOk NextValid)
              (ltb d.buftotsz d.bufmaxsz || ((d.buftotsz == d.bufmaxsz) && d.was_pending))
              (λ _.
                OnOk-bind NextValid (λ (c : Response × ℕ × Dir). AllValid c.2) (dir_cohe pm p d) _
                  (dir_cohe-AllValid pm p d v) (λ c k. respond-Valid pm c.0 p c.1 c.2 k))
              (λ _. answer_at_once-Valid p _ (record { roomy = v.roomy; valid = v.valid }))))

send_one-Valid :
    (pm : Params) (p a : ℕ) (x : DirEp) (n : ℕ) (d : Dir)
    → AllValid d
    → OnOk NextValid (send_one pm p a x n d)
unfolding send_one
send_one-Valid pm p a x n d v =
    let made : Dir = record (set_req d d.next_req (cohe_message d (d.reqs p) x n)) {
      next_req = d.next_req + 1;
    } in
    let line : DirLine = record (d.lines a) { extra = some (record x { num_left = n }) } in
    let one : IsValid d.vec_index line = record {
      counted = (v.valid a).counted;
      fits = (v.valid a).fits;
    } in
    let all = put-IsValid d.vec_index d.lines a line v.valid one in
    if_elim (OnOk NextValid) (has_room made d.next_req)
      (λ _.
        OnOk-bind NextValid
          (λ (e : Dir).
            AllValid
              (set_line e a (record (e.lines a) { extra = some (record x { num_left = n }) })))
          (add_out d.next_req made) _
          (add_out-OnOk _ d.next_req made (λ ports. record { roomy = v.roomy; valid = all }))
          (λ e w.
            if_elim (OnOk NextValid) (n == 0) (λ _. record { roomy = w.roomy; valid = w.valid })
              (λ _. pause-Valid pm.addtl_pkt_crtime p _ w)))
      (λ _. record { roomy = v.roomy; valid = v.valid })

-- DIRSENDCOHE keeps every line of the directory valid.
pub dir_send_cohe-Valid :
    (pm : Params) (p : ℕ) (d : Dir) → AllValid d → OnOk NextValid (dir_send_cohe pm p d)
unfolding dir_send_cohe send_next send_from send_line
dir_send_cohe-Valid pm p d v =
    if_elim (OnOk NextValid) (is_cohe (d.reqs p).kind)
      (λ _.
        if_elim (OnOk NextValid) (has_room d p) (λ _. record { roomy = v.roomy; valid = v.valid })
          (λ _. record { roomy = v.roomy; valid = v.valid }))
      (λ _. at_line (d.reqs p).dir_item)
  where
    by_left : (a : ℕ) (x : DirEp) (n : ℕ) → OnOk NextValid (send_next pm p a x n d)
    by_left a x zero = tt
    by_left a x (suc n) = send_one-Valid pm p a x n d v

    from_line : (a : ℕ) (o : Option DirEp) → OnOk NextValid (send_from pm p a o d)
    from_line a none = tt
    from_line a (some x) = by_left a x x.num_left

    at_line : (o : Option ℕ) → OnOk NextValid (send_line pm p o d)
    at_line none = tt
    at_line (some a) = from_line a (d.lines a).extra
