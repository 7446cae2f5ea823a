-- ===== src/Directory/Cohe/Owner.antt =====
-- A request for ownership of a shared line (MemSys/directory.c): who owns the line then, and which
-- nodes are told.
use rsim.Prelude.{
  ℕ, ◌-◌, ◌*◌, ◌<◌, ◌≡◌, ◌≢◌, ap, refl, sym, ◌∙◌, Bool, true, not, some, ◌==◌, leb, eq_of_==,
  ne_of_==, if◌then◌else◌, if_elim, update_self, arith,
}
use mathlib.Core.Path.{subst}
use rsim.Prelude.Result.{Returns, Returns-bind}
use rsim.Req.{ReqType}
use rsim.Directory.{
  DirLine, Dir, DirEp, Params, Req, Response, visit_mem, wait_cnt, dir_reply, LineState, dir_shared,
  dir_private,
}
use rsim.Directory.Sharers.{bit_of, only, Search, rm_all_add_fm, find_fm}
use rsim.Directory.Sharers.Count.{bit_of-only, Fits}
use rsim.Directory.Sharers.Found.{Found, find_fm-Found}
use rsim.Directory.Pending.{put_both, set_extra}
use rsim.Directory.Cohe.{read_own, upgrade}
use rsim.Directory.Cohe.Lines.{cold-vector}
use rsim.Directory.Cohe.Invariant.{AllValid}

-- What ownership of the line a means for the node src: the node is its only sharer, the line is
-- private, the first `counter` places of the array are the other nodes that had a copy, each once, and
-- they are to be sent INVLs before the node is answered, or at once if there are none.
pub record Owned (d e : Dir) (a src : ℕ) (rs at_once : Response) : Type 0 where
  pub owner : (n : ℕ) → n < d.vec_index * 32 → bit_of (e.lines a).vector n ≡ (n == src)
  pub private : (e.lines a).state ≡ dir_private
  pub told :
      (n : ℕ)
      → n < d.vec_index * 32
      → bit_of (d.lines a).vector n ≡ true
      → n ≢ src
      → (i : ℕ) × (i < e.extra.counter) × (e.extra.node_ary i ≡ n)
  pub had_copy :
      (i : ℕ)
      → i < e.extra.counter
      → (bit_of (d.lines a).vector (e.extra.node_ary i) ≡ true) × (e.extra.node_ary i ≢ src)
  pub once : (i j : ℕ) → i < j → j < e.extra.counter → e.extra.node_ary i < e.extra.node_ary j
  pub waits : 0 < e.extra.counter → (rs ≡ wait_cnt) × (e.extra.next_req_type ≡ ReqType.invl)
  pub goes_on : e.extra.counter ≡ 0 → rs ≡ at_once

module _ (p a : ℕ) (d : Dir) (v : AllValid d) (inside : (d.reqs p).src_node < d.num_nodes) where
  s : Search
  s = find_fm d (d.lines a) (some d.extra.node_ary) (d.reqs p).src_node

  all_found : Found (bit_of (d.lines a).vector) (d.reqs p).src_node (d.vec_index * 32) s
  unfolding s
  all_found = find_fm-Found d (d.lines a) d.extra.node_ary (d.reqs p).src_node

  -- the line of the node alone, and the message to the others
  owned :
      (l : DirLine) (x : DirEp) (r : Req) (rs at_once : Response)
      → l.vector ≡ only d.vec_index (d.reqs p).src_node (d.lines a).vector
      → x.node_ary ≡ s.node_ary
      → x.counter ≡ s.node_ary_idx
      → (0 < x.counter → (rs ≡ wait_cnt) × (x.next_req_type ≡ ReqType.invl))
      → (x.counter ≡ 0 → rs ≡ at_once)
      → Owned d
          (put_both (set_extra d x) a (record l { state = dir_private }) p r)
          a
          (d.reqs p).src_node
          rs
          at_once
  owned l x r rs at_once vec ary len waits goes_on =
      let src : ℕ = (d.reqs p).src_node in
      let self = update_self d.lines a (record l { state = dir_private }) in
      let f = all_found in
      record {
        owner = λ n h.
            ap (λ (k : DirLine). bit_of k.vector n) self
            ∙ ap (λ (w : ℕ → ℕ → Bool). bit_of w n) vec
            ∙ bit_of-only d.vec_index src (d.lines a).vector n h;
        private = ap (λ (k : DirLine). k.state) self;
        told = λ n h on ne.
            let (i, l, e) = f.all_seen n h on ne in
            (i, omega (arith, len), ap (λ (g : ℕ → ℕ). g i) ary ∙ e);
        had_copy = λ i h.
            let (b, on, ne) = f.sound i (omega (arith, len)) in
            subst (λ (g : ℕ → ℕ). (bit_of (d.lines a).vector (g i) ≡ true) × (g i ≢ src)) (sym ary)
              ((on, ne));
        once = λ i j b h.
            subst (λ (g : ℕ → ℕ). g i < g j) (sym ary) (f.rising i j b (omega (arith, len)));
        waits = waits;
        goes_on = goes_on;
      }

  alone_fm :
      (l : DirLine) (r : Req)
      → Returns
          (λ (c : DirLine × Req). c.0.vector ≡ only d.vec_index (d.reqs p).src_node l.vector)
          (rm_all_add_fm d l (d.reqs p).src_node r)
  unfolding rm_all_add_fm
  alone_fm l r =
      if_elim (Returns _) (leb d.num_nodes (d.reqs p).src_node)
        (λ e. absurd (ground (arith, inside)))
        (λ _. (_, refl, (cold-vector _ (d.reqs p).src_node r).0))

  -- a shared line has a sharer
  none_found : {P : Type 0} → (d.lines a).state ≡ dir_shared → (s.find == 0) ≡ true → P
  none_found shared e =
      let some_left : 0 < (d.lines a).numsharers =
        subst (λ (st : LineState). Fits st (d.lines a).numsharers) shared (v.valid a).fits in
      absurd (omega (arith, eq_of_== s.find 0 e, all_found.counted, (v.valid a).counted, some_left))

  -- When the lines are valid, READ_OWN of a shared line by a node of the system succeeds: the node owns
  -- the line alone, which is private, and the list of nodes to be sent an INVL holds exactly the other
  -- nodes that had a copy, each once, with WAIT_CNT; if there are none the answer is VISIT_MEM.
  pub read_own-Owned :
      (pm : Params)
      → (d.lines a).state ≡ dir_shared
      → Returns
          (λ (out : Response × Dir). Owned d out.1 a (d.reqs p).src_node out.0 visit_mem)
          (read_own pm dir_shared p a d)
  unfolding read_own s
  read_own-Owned pm shared =
      let Good : Response × Dir → Type 0 =
        λ out. Owned d out.1 a (d.reqs p).src_node out.0 visit_mem in
      let f = all_found in
      let others : ℕ = if s.node_copy then s.find - 1 else s.find in
      let count : others ≡ s.node_ary_idx = ground (arith, f.split) in
      if_elim (Returns Good) (s.find == 0) (λ e. none_found shared e)
        (λ _. Returns-bind Good _ _ _ (alone_fm (d.lines a) (d.reqs p)) (λ c vec.
          if_elim (Returns Good) (others == 0)
            (λ z. (
              _,
              refl,
              owned c.0 _ _ visit_mem visit_mem vec refl count
                  (λ k. absurd (omega (arith, eq_of_== others 0 z))) (λ k. refl),
            ))
            (λ z. (
              _,
              refl,
              owned c.0 _ _ wait_cnt visit_mem vec refl count (λ k. (refl, refl))
                  (λ k. absurd (ne_of_== others 0 z k)),
            ))))

  has_copy : bit_of (d.lines a).vector (d.reqs p).src_node ≡ true → s.node_copy ≡ true
  has_copy on =
      let small : (d.reqs p).src_node < d.vec_index * 32 = omega (arith, v.roomy) in
      all_found.copied ∙ ground (arith, on)

  -- When the lines are valid, UPGRADE of a shared line by a node of the system that has a copy succeeds:
  -- the node owns the line alone, which is private, and the list of nodes to be sent an INVL holds
  -- exactly the other nodes that had a copy, each once, with WAIT_CNT; if there are none the answer is
  -- DIR_REPLY.
  pub upgrade-Owned :
      (pm : Params)
      → (d.lines a).state ≡ dir_shared
      → bit_of (d.lines a).vector (d.reqs p).src_node ≡ true
      → Returns
          (λ (out : Response × Dir). Owned d out.1 a (d.reqs p).src_node out.0 dir_reply)
          (upgrade pm dir_shared p a d)
  unfolding upgrade s
  upgrade-Owned pm shared on =
      let Good : Response × Dir → Type 0 =
        λ out. Owned d out.1 a (d.reqs p).src_node out.0 dir_reply in
      let copy = has_copy on in
      let count : s.find - 1 ≡ s.node_ary_idx = ground (arith, all_found.split, copy) in
      if_elim (Returns Good) (s.find == 0) (λ e. none_found shared e)
        (λ _.
          if_elim (Returns Good) (not s.node_copy) (λ e. absurd (ground (arith, copy, e)))
            (λ _. Returns-bind Good _ _ _ (alone_fm (d.lines a) (d.reqs p)) (λ c vec.
              if_elim (Returns Good) (s.find - 1 == 0)
                (λ z. (
                  _,
                  refl,
                  owned c.0 _ _ dir_reply dir_reply vec refl count
                      (λ k. absurd (omega (arith, eq_of_== (s.find - 1) 0 z))) (λ k. refl),
                ))
                (λ z. (
                  _,
                  refl,
                  owned c.0 _ _ wait_cnt dir_reply vec refl count (λ k. (refl, refl))
                      (λ k. absurd (ne_of_== (s.find - 1) 0 z k)),
                )))))
