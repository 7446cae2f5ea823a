-- ===== src/Directory/Reply/Refused.antt =====
-- A request that is forwarded to the owner of its line and refused there (MemSys/directory.c): the line
-- and the request are as before, and the request is to be sent again.
use rsim.Prelude.{
  ℕ, ◌*◌, ◌<◌, ◌≡◌, ap, refl, ◌∙◌, Bool, true, false, Option, none, some, ◌==◌, leb, if_elim,
  update, update_self, arith,
}
use rsim.Prelude.Result.{Result, ok, ◌>>=◌, Returns, Returns-bind}
use rsim.Req.{ReqType}
use rsim.Directory.{
  DirLine, Dir, Params, Req, dir_private, reply, cohe_reply, rar, nack, req_bwd, set_req, set_line,
}
use rsim.Directory.Sharers.{bit_of, only, cold, rm_all_add_fm}
use rsim.Directory.Sharers.Count.{bit_of-only}
use rsim.Directory.Buffer.{dir_check_buf, has_room, fix_forward_rars}
use rsim.Directory.Buffer.Effect.{dir_check_buf-elim}
use rsim.Directory.Cohe.Lines.{cold-vector}
use rsim.Directory.Serve.{Next, forwarded, start_cohe}
use rsim.Directory.Reply.{settle, send_or_queue, unforwarded, race_rar}

-- the message as the owner's cache sends it back with a NACK
abbrev pub nacked : Req → Req
nacked r = record r {
  kind = cohe_reply;
  reply = nack;
  src_node = r.dest_node;
  dest_node = r.src_node;
}

-- the directory after FORWARD_REQUEST, when that message has come
abbrev pub refused : Params → ℕ → ℕ → Dir → Dir
refused pm p a d = set_req (start_cohe p a d) p (nacked (forwarded pm d a (d.reqs p)))

-- what is left then: the owner has the line alone, nothing is in flight for it, and the request is a
-- message of a type, from a node, that asks for a retry
pub record Retry (words : ℕ) (d : Dir) (p a owner src : ℕ) (t : ReqType) : Type 0 where
  pub owner_only : (n : ℕ) → n < words * 32 → bit_of (d.lines a).vector n ≡ (n == owner)
  pub private : (d.lines a).state ≡ dir_private
  pub idle : ((d.lines a).pend ≡ false) × ((d.lines a).extra ≡ none)
  pub req_type : (d.reqs p).req_type ≡ t
  pub src_node : (d.reqs p).src_node ≡ src
  pub retries :
      ((d.reqs p).kind ≡ reply) × ((d.reqs p).reply ≡ rar) × ((d.reqs p).forward_to ≡ none)

-- the type of the message that stands for the request on its way to the owner
abbrev pub AskedBy : ReqType → ReqType → Type 0
AskedBy t sent = fix_forward_rars sent ≡ ok t

-- what `cold` leaves of a request
pub cold-req :
    (l : DirLine) (n : ℕ) (r : Req)
    → ((cold l n r).1.req_type ≡ r.req_type)
      × ((cold l n r).1.forward_to ≡ r.forward_to)
      × ((cold l n r).1.kind ≡ r.kind)
      × ((cold l n r).1.reply ≡ r.reply)
      × ((cold l n r).1.src_node ≡ r.src_node)
unfolding cold
cold-req l n r = ground arith

module _ (words p a owner src : ℕ) (t : ReqType) where
  abbrev Left : Next × Dir → Type 0
  Left out = Retry words out.1 p a owner src t

  check_buf-Retry :
      (tag : ℕ) (d : Dir)
      → Retry words d p a owner src t
      → Retry words (dir_check_buf tag d) p a owner src t
  check_buf-Retry tag d r =
      dir_check_buf-elim (λ e. Retry words e p a owner src t) tag d
        (λ n q b. record {
          owner_only = r.owner_only;
          private = r.private;
          idle = r.idle;
          req_type = r.req_type;
          src_node = r.src_node;
          retries = r.retries;
        })

  send-Retry : (d : Dir) → Retry words d p a owner src t → Left (send_or_queue true p d)
  unfolding send_or_queue
  send-Retry d r =
      if_elim Left (has_room d p)
        (λ _. record {
          owner_only = r.owner_only;
          private = r.private;
          idle = r.idle;
          req_type = r.req_type;
          src_node = r.src_node;
          retries = r.retries;
        })
        (λ _. record {
          owner_only = r.owner_only;
          private = r.private;
          idle = r.idle;
          req_type = r.req_type;
          src_node = r.src_node;
          retries = r.retries;
        })

  -- a request as it was before it was forwarded, that asks for a retry
  abbrev Back : Req → Type 0
  Back r =
      (r.req_type ≡ t)
      × (r.src_node ≡ src)
      × (r.kind ≡ reply)
      × (r.reply ≡ rar)
      × (r.forward_to ≡ none)

  unforwarded-Back :
      (r : Req) (o : Option ℕ)
      → o ≡ some src
      → AskedBy t r.req_type
      → r.kind ≡ reply
      → r.reply ≡ rar
      → Returns Back (unforwarded r o)
  unfolding unforwarded
  unforwarded-Back r o e asked k w = rw e (
    record r { src_node = src; forward_to = none; req_type = t },
    ap
        (λ (m : Result ReqType).
          m >>= (λ u. ok (record r { src_node = src; forward_to = none; req_type = u })))
        asked,
    (refl, refl, k, w, refl),
  )

  -- DirRmAllAdd_FM with the owner, on the request of race_rar
  abbrev AloneWith : Dir → DirLine → ℕ → Req → DirLine × Req → Type 0
  AloneWith d l n r c =
      (c.0.vector ≡ only d.vec_index n l.vector)
      × (c.1.req_type ≡ r.req_type)
      × (c.1.forward_to ≡ r.forward_to)
      × (c.1.kind ≡ r.kind)
      × (c.1.reply ≡ r.reply)

  owner_alone :
      (d : Dir) (l : DirLine) (n : ℕ) (r : Req)
      → n < d.num_nodes
      → Returns (AloneWith d l n r) (rm_all_add_fm d l n r)
  unfolding rm_all_add_fm
  owner_alone d l n r inside =
      let k : DirLine = record l { numsharers = 1; vector = only d.vec_index n l.vector } in
      let (b, c, e, f, g) = cold-req k n r in
      if_elim (Returns (AloneWith d l n r)) (leb d.num_nodes n)
        (λ e. absurd (ground (arith, inside)))
        (λ _. (cold k n r, refl, ((cold-vector k n r).0, b, c, e, f)))

  -- the line and the request in their places
  placed-Retry :
      (d : Dir) (l : DirLine) (s : Req)
      → l.vector ≡ only d.vec_index owner (d.lines a).vector
      → Back s
      → words ≡ d.vec_index
      → Retry words
          (set_req (settle a (set_line d a (record l { state = dir_private }))) p s)
          p
          a
          owner
          src
          t
  placed-Retry d l s vec (b0, b1, b2, b3, b4) wide =
      let k : DirLine = record l { state = dir_private } in
      let first = update_self d.lines a k in
      let m : DirLine = record (update d.lines a k a) { pend = false; extra = none } in
      let self = update_self (update d.lines a k) a m in
      let this = update_self d.reqs p s in
      record {
        owner_only = λ n h.
            ap (λ (x : DirLine). bit_of x.vector n) self
            ∙ ap (λ (x : DirLine). bit_of x.vector n) first
            ∙ ap (λ (w : ℕ → ℕ → Bool). bit_of w n) vec
            ∙ bit_of-only d.vec_index owner (d.lines a).vector n (omega (arith, wide));
        private = ap (λ (x : DirLine). x.state) self ∙ ap (λ (x : DirLine). x.state) first;
        idle = (ap (λ (x : DirLine). x.pend) self, ap (λ (x : DirLine). x.extra) self);
        req_type = ap (λ (x : Req). x.req_type) this ∙ b0;
        src_node = ap (λ (x : Req). x.src_node) this ∙ b1;
        retries = (
          ap (λ (x : Req). x.kind) this ∙ b2,
          ap (λ (x : Req). x.reply) this ∙ b3,
          ap (λ (x : Req). x.forward_to) this ∙ b4,
        );
      }

  pub race_rar-Retry :
      (d : Dir)
      → owner < d.num_nodes
      → (d.reqs p).src_node ≡ owner
      → (d.reqs p).forward_to ≡ some src
      → AskedBy t (d.reqs p).req_type
      → words ≡ d.vec_index
      → Returns Left (race_rar p a d)
  unfolding race_rar
  race_rar-Retry d inside from to asked wide =
      let n : ℕ = (d.reqs p).src_node in
      let r : Req = record (d.reqs p) { reply = rar; kind = reply; dir = req_bwd } in
      Returns-bind Left (AloneWith d (d.lines a) n r) _ _
        (owner_alone d (d.lines a) n r (omega (arith, from)))
        (λ c (vec, ty, fw, ki, re).
          Returns-bind Left Back _ _
            (unforwarded-Back c.1 c.1.forward_to (fw ∙ to) (ap fix_forward_rars ty ∙ asked) ki re)
            (λ s b. (
              _,
              refl,
              send-Retry _ (
                  check_buf-Retry s.tag _ (
                    placed-Retry d c.0 s
                      (vec ∙ ap (λ (o : ℕ). only d.vec_index o (d.lines a).vector) from) b wide)),
            )))
