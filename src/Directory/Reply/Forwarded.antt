-- ===== src/Directory/Reply/Forwarded.antt =====
-- A request for a line that another node owns (MemSys/directory.c), from Dir_Cohe to the refusal of what
-- it forwards.
use rsim.Prelude.{ℕ, ◌*◌, ◌<◌, ◌≡◌, ◌≢◌, true, some}
use rsim.Prelude.Result.{Result, Returns}
use rsim.Req.{ReqType}
use rsim.Directory.{Dir, Params, Req, Response, forward_request, dir_private}
use rsim.Directory.Sharers.{bit_of, Search, find_fm}
use rsim.Directory.Sharers.Found.{Found}
use rsim.Directory.Cohe.Invariant.{AllValid}
use rsim.Directory.Serve.{Next, forwarded}
use rsim.Directory.Reply.{race_rar}
use rsim.Directory.Reply.Refused.{refused, Retry}

-- what Dir_Cohe leaves of a request for a private line that another node owns
abbrev pub Forwards : Dir → ℕ → ℕ → ReqType → Response × Dir → Type 0
Forwards d p owner sent out =
    (out.0 ≡ forward_request)
    × (out.1.num_nodes ≡ d.num_nodes)
    × (out.1.vec_index ≡ d.vec_index)
    × (out.1.extra.node_ary 0 ≡ owner)
    × (out.1.extra.next_req_type ≡ sent)
    × ((out.1.reqs p).src_node ≡ (d.reqs p).src_node)

-- the request is to be retried, and the sharers of the line are those of before
abbrev pub Restored : Dir → (p a owner : ℕ) → ReqType → Next × Dir → Type 0
Restored d p a owner t out =
    Retry d.vec_index out.1 p a owner (d.reqs p).src_node t
    × ((n : ℕ)
        → n < d.vec_index * 32
        → bit_of (out.1.lines a).vector n ≡ bit_of (d.lines a).vector n)

-- what is sent to the owner: Dir_Cohe answers FORWARD_REQUEST, and the request goes to the owner as a
-- message of a type that names the request's node as the one to send the line to
abbrev pub SentTo : Params → Dir → (p a owner : ℕ) → ReqType → Response × Dir → Type 0
SentTo pm d p a owner sent out =
    (out.0 ≡ forward_request)
    × ((forwarded pm out.1 a (out.1.reqs p)).dest_node ≡ owner)
    × ((forwarded pm out.1 a (out.1.reqs p)).req_type ≡ sent)
    × ((forwarded pm out.1 a (out.1.reqs p)).forward_to ≡ some (d.reqs p).src_node)

-- that, and what a refusal of the message comes to
abbrev pub SentAndRestored :
    Params → Dir → (p a owner : ℕ) → (t sent : ReqType) → Response × Dir → Type 0
SentAndRestored pm d p a owner t sent out =
    SentTo pm d p a owner sent out
    × Returns (Restored d p a owner t) (race_rar p a (refused pm p a out.1))

module _ (p a : ℕ) (d : Dir) (v : AllValid d) (private : (d.lines a).state ≡ dir_private)
    (owner : ℕ) (known : owner < d.num_nodes) (owns : bit_of (d.lines a).vector owner ≡ true)
    (other : owner ≢ (d.reqs p).src_node) where
  s : Search
  s = find_fm d (d.lines a) (some d.extra.node_ary) (d.reqs p).src_node
