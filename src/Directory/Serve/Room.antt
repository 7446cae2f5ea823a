-- ===== src/Directory/Serve/Room.antt =====
-- DIRREQ (MemSys/directory.c) does not use more buffers than the directory has.
use rsim.Prelude.{
  ℕ, ◌-◌, ◌≤◌, ◌<◌, ◌≡◌, ◌⊎◌, inl, inr, refl, ap, ◌∙◌, false, not, ◌&&◌, ◌||◌, Option, List, none,
  some, ◌==◌, ltb, if◌then◌else◌, if_elim, arith,
}
use rsim.Prelude.Result.{Result, ok, ◌>>=◌, OnOk, OnOk->>=, OnOk-bind}
use rsim.Req.{ReqType}
use rsim.Directory.{
  Dir, DirEp, LineState, uncached, dir_shared, dir_private, Params, Response, wait_cnt, wait_pend,
  visit_mem, dir_reply, forward_request, wait_for_wrb,
}
use rsim.Directory.Sharers.{find_fm, add_fm, rm_all_add_fm}
use rsim.Directory.Table.{hash_lookup_fm, hash_index, moved_front, unlink}
use rsim.Directory.Buffer.{dir_add_buf, req_set_handled, dir_commit_req, has_room}
use rsim.Directory.Valid.{hash_lookup_fm-reqs}
use rsim.Directory.Buffer.Effect.{dir_commit_req-OnOk}
use rsim.Directory.Pending.{is_wrb, wait_wrb}
use rsim.Directory.Cohe.{
  read_sh, read_own, as_read_own, upgrade, by_type, on_pending, cohe_line, dir_cohe,
}
use rsim.Directory.Serve.{
  start_cohe, start_over, Next, answer_at_once, give_reply, pause, tell_sharers, forward, respond,
  dir_req,
}

-- no more buffers in use than there are
abbrev pub Bounded : Dir → Type 0
Bounded d = d.buftotsz ≤ d.bufmaxsz

-- room for one buffer more, unless the request holds one
abbrev pub Roomy : Dir → Type 0
Roomy d = Bounded d × (d.was_pending ≡ false → d.buftotsz < d.bufmaxsz)

-- After Dir_Cohe there is still that room, or the request waits for a write-back in a buffer.
abbrev Held : Response × Dir → Type 0
Held out = ((out.0 ≡ wait_for_wrb) × Bounded out.1) ⊎ Roomy out.1

abbrev pub BoundedNext : Next × Dir → Type 0
BoundedNext out = Bounded out.1

module _ (pm : Params) (p a : ℕ) where
  wait_wrb-Held : (d : Dir) → Roomy d → Held (wait_wrb p a d)
  unfolding wait_wrb
  wait_wrb-Held d r = inl (refl, ground (arith, r.0, r.1))

  read_sh-Held : (st : LineState) (d : Dir) → Roomy d → OnOk Held (read_sh pm st p a d)
  unfolding read_sh
  read_sh-Held uncached d r = OnOk->>= Held (add_fm d _ _ _) _ (λ c e. inr r)
  read_sh-Held dir_shared d r = OnOk->>= Held (add_fm d _ _ _) _ (λ c e. inr r)
  read_sh-Held dir_private d r =
      let s = find_fm d (d.lines a) (some d.extra.node_ary) (d.reqs p).src_node in
      if_elim (OnOk Held) (not (s.find == 1)) (λ _. tt)
        (λ _.
          if_elim (OnOk Held) s.node_copy (λ _. wait_wrb-Held _ r)
            (λ _. OnOk->>= Held (add_fm d _ _ _) _ (λ c e. inr r)))

  read_own-Held : (st : LineState) (d : Dir) → Roomy d → OnOk Held (read_own pm st p a d)
  unfolding read_own
  read_own-Held uncached d r = OnOk->>= Held (add_fm d _ _ _) _ (λ c e. inr r)
  read_own-Held dir_shared d r =
      let s = find_fm d (d.lines a) (some d.extra.node_ary) (d.reqs p).src_node in
      let others : ℕ = if s.node_copy then s.find - 1 else s.find in
      if_elim (OnOk Held) (s.find == 0) (λ _. tt)
        (λ _.
          OnOk->>= Held (rm_all_add_fm d _ _ _) _
            (λ c e. if_elim (OnOk Held) (others == 0) (λ _. inr r) (λ _. inr r)))
  read_own-Held dir_private d r =
      let s = find_fm d (d.lines a) (some d.extra.node_ary) (d.reqs p).src_node in
      if_elim (OnOk Held) (not (s.find == 1)) (λ _. tt)
        (λ _.
          if_elim (OnOk Held) s.node_copy (λ _. wait_wrb-Held _ r)
            (λ _. OnOk->>= Held (rm_all_add_fm d _ _ _) _ (λ c e. inr r)))

  as_read_own-Held : (d : Dir) → Roomy d → OnOk Held (as_read_own pm p a d)
  unfolding as_read_own
  as_read_own-Held d r = read_own-Held _ _ r

  upgrade-Held : (st : LineState) (d : Dir) → Roomy d → OnOk Held (upgrade pm st p a d)
  unfolding upgrade
  upgrade-Held uncached d r = as_read_own-Held d r
  upgrade-Held dir_private d r = as_read_own-Held d r
  upgrade-Held dir_shared d r =
      let s = find_fm d (d.lines a) (some d.extra.node_ary) (d.reqs p).src_node in
      if_elim (OnOk Held) (s.find == 0) (λ _. tt)
        (λ _.
          if_elim (OnOk Held) (not s.node_copy) (λ _. as_read_own-Held _ r)
            (λ _.
              OnOk->>= Held (rm_all_add_fm d _ _ _) _
                (λ c e. if_elim (OnOk Held) (s.find - 1 == 0) (λ _. inr r) (λ _. inr r))))

  by_type-Held :
      (t : ReqType) (d : Dir) → is_wrb t ≡ false → Roomy d → OnOk Held (by_type pm t p a d)
  unfolding by_type
  by_type-Held ReqType.read_sh d h r = read_sh-Held (d.lines a).state d r
  by_type-Held ReqType.upgrade d h r = upgrade-Held (d.lines a).state d r
  by_type-Held ReqType.read_own d h r = read_own-Held (d.lines a).state d r
  by_type-Held ReqType.wrb d h r = cc
  by_type-Held ReqType.repl d h r = cc
  by_type-Held _ d h r = tt

  on_pending-Held :
      (t : ReqType) (d : Dir) (x : Option DirEp)
      → is_wrb t ≡ false
      → Roomy d
      → OnOk Held (on_pending pm t p a d x)
  unfolding on_pending
  on_pending-Held t d none h r = inr r
  on_pending-Held t d (some x) h r = rw h (inr r)

  cohe_line-Held :
      (d : Dir) → is_wrb (d.reqs p).req_type ≡ false → Roomy d → OnOk Held (cohe_line pm p a d)
  unfolding cohe_line
  cohe_line-Held d h r =
      if_elim (OnOk Held) (d.lines a).pend
        (λ _. on_pending-Held (d.reqs p).req_type d (d.lines a).extra h r)
        (λ _. by_type-Held (d.reqs p).req_type d h r)

  commit-Roomy : (d : Dir) → Roomy d → OnOk Roomy (dir_commit_req p d)
  commit-Roomy d r = dir_commit_req-OnOk Roomy p d (λ ports. r) (λ e n q. r)

  commit-Bounded : (d : Dir) → Bounded d → OnOk Bounded (dir_commit_req p d)
  commit-Bounded d r = dir_commit_req-OnOk Bounded p d (λ ports. r) (λ e n q. r)

  give_reply-Bounded : (d : Dir) → Bounded d → OnOk BoundedNext (give_reply p a d)
  unfolding give_reply
  give_reply-Bounded d b = OnOk->>= BoundedNext (req_set_handled (d.reqs p) _ _) _ (λ h eq.
      if_elim (OnOk BoundedNext) (has_room _ p)
        (λ _.
          OnOk-bind BoundedNext Bounded (dir_commit_req p _) _ (commit-Bounded _ b)
            (λ e w. ground (arith, w)))
        (λ _. b))

  start_cohe-Bounded : (d : Dir) → Roomy d → Bounded (start_cohe p a d)
  start_cohe-Bounded d r = ground (arith, r.0, r.1)

  pause-Bounded : (delay : ℕ) (d : Dir) → Bounded d → BoundedNext (pause delay p d)
  pause-Bounded delay d b = if_elim BoundedNext (delay == 0) (λ _. b) (λ _. b)

  tell_sharers-Bounded : (d : Dir) → Roomy d → OnOk BoundedNext (tell_sharers pm p a d)
  unfolding tell_sharers
  tell_sharers-Bounded d r =
      OnOk-bind BoundedNext Roomy (dir_commit_req p d) _ (commit-Roomy d r) (λ e w.
        OnOk->>= BoundedNext (req_set_handled (e.reqs p) _ _) _
          (λ h eq. pause-Bounded pm.pkt_create_time _ (start_cohe-Bounded e w)))

  forward-Bounded : (d : Dir) → Roomy d → OnOk BoundedNext (forward pm p a d)
  unfolding forward
  forward-Bounded d r =
      OnOk-bind BoundedNext Roomy (dir_commit_req p d) _ (commit-Roomy d r)
        (λ e w. pause-Bounded pm.pkt_create_time _ (start_cohe-Bounded e w))

  still-Bounded : (c : Response) (d : Dir) → Held (c, d) → Bounded d
  still-Bounded c d (inl w) = w.1
  still-Bounded c d (inr r) = r.0

  still-Roomy : (c : Response) (d : Dir) → ¬ (c ≡ wait_for_wrb) → Held (c, d) → Roomy d
  still-Roomy c d other (inl w) = absurd (other w.0)
  still-Roomy c d other (inr r) = r

  wait-Bounded :
      (d : Dir)
      → Roomy d
      → OnOk BoundedNext (
          dir_commit_req p d
          >>= (λ (e : Dir). dir_add_buf e p >>= (λ (f : Dir). ok (start_over, f))))
  unfolding dir_add_buf
  wait-Bounded d r = OnOk-bind BoundedNext Roomy (dir_commit_req p d) _ (commit-Roomy d r) (λ e w.
      if_elim (λ (r : Result Dir). OnOk BoundedNext (r >>= (λ (f : Dir). ok (start_over, f))))
        (((e.buftotsz == e.bufmaxsz) && not e.was_pending) || ltb e.bufmaxsz e.buftotsz) (λ _. tt)
        (λ _. ground (arith, w.0, w.1)))

  respond-Bounded : (c : Response) (d : Dir) → Held (c, d) → OnOk BoundedNext (respond pm c p a d)
  unfolding respond
  respond-Bounded dir_reply d h = give_reply-Bounded d (still-Bounded _ d h)
  respond-Bounded visit_mem d h = give_reply-Bounded d (still-Bounded _ d h)
  respond-Bounded wait_for_wrb d h =
      OnOk-bind BoundedNext Bounded (dir_commit_req p d) _ (commit-Bounded d (still-Bounded _ d h))
        (λ e b. b)
  respond-Bounded wait_pend d h = wait-Bounded d (still-Roomy _ d (λ e. cc) h)
  respond-Bounded wait_cnt d h = tell_sharers-Bounded d (still-Roomy _ d (λ e. cc) h)
  respond-Bounded forward_request d h = forward-Bounded d (still-Roomy _ d (λ e. cc) h)
  respond-Bounded _ d h = tt

module _ (pm : Params) (p : ℕ) where
  hash_lookup_fm-Roomy : (tag : ℕ) (d : Dir) → Roomy d → Roomy (hash_lookup_fm tag d).1
  unfolding hash_lookup_fm moved_front
  hash_lookup_fm-Roomy tag d r = by_chain (unlink d.lines tag (d.data_hash (hash_index tag)))
    where
      by_chain : (o : Option (ℕ × List ℕ)) → Roomy (moved_front tag d (hash_index tag) o).1
      by_chain (some (a, rest)) = r
      by_chain none = r

  answer_at_once-Bounded : (d : Dir) → Bounded d → OnOk BoundedNext (answer_at_once p d)
  unfolding answer_at_once
  answer_at_once-Bounded d b =
      if_elim (OnOk BoundedNext) (has_room d p)
        (λ _.
          OnOk-bind BoundedNext Bounded (dir_commit_req p d) _ (commit-Bounded pm p 0 d b)
            (λ e w. w))
        (λ _. b)

  dir_cohe-Held :
      (d : Dir)
      → is_wrb (d.reqs p).req_type ≡ false
      → Roomy d
      → OnOk (λ (c : Response × ℕ × Dir). Held (c.0, c.2)) (dir_cohe pm p d)
  unfolding dir_cohe
  dir_cohe-Held d h r =
      let found = hash_lookup_fm (d.reqs p).tag d in
      let same : is_wrb (found.1.reqs p).req_type ≡ false =
        ap (λ rs. is_wrb (rs p).req_type) (hash_lookup_fm-reqs (d.reqs p).tag d) ∙ h in
      OnOk-bind (λ (c : Response × ℕ × Dir). Held (c.0, c.2)) Held (cohe_line pm p found.0 found.1)
        _ (cohe_line-Held pm p found.0 found.1 same (hash_lookup_fm-Roomy (d.reqs p).tag d r))
        (λ out w. w)

  -- With no more buffers in use than the directory has, and a request that is no write-back, whatever
  -- DIRREQ comes to leaves no more in use, unless it ends the simulation.
  pub dir_req-Bounded :
      (d : Dir) → is_wrb (d.reqs p).req_type ≡ false → Bounded d → OnOk BoundedNext (dir_req pm p d)
  unfolding dir_req
  dir_req-Bounded d h b =
      if_elim (OnOk BoundedNext) (d.reqs p).preprocessed
        (λ _. if_elim (OnOk BoundedNext) d.was_pending (λ _. tt) (λ _. answer_at_once-Bounded _ b))
        (λ _.
          if_elim (OnOk BoundedNext) (d.reqs p).dirdone (λ _. tt)
            (λ _.
              if_elim (OnOk BoundedNext)
                (ltb d.buftotsz d.bufmaxsz || ((d.buftotsz == d.bufmaxsz) && d.was_pending))
                (λ room.
                  OnOk-bind BoundedNext (λ (c : Response × ℕ × Dir). Held (c.0, c.2))
                    (dir_cohe pm p d) _ (dir_cohe-Held d h (b, λ w. ground (arith, room, w)))
                    (λ c w. respond-Bounded pm p c.1 c.0 c.2 w))
                (λ _. answer_at_once-Bounded _ b)))
