-- ===== src/Directory/Tests.antt =====
-- Runs of the directory (MemSys/directory.c), and the theorems applied to one of three nodes.
mod Runs
use rsim.Prelude.{
  ℕ, suc, zero, ◌+◌, ◌-◌, ◌*◌, ◌<◌, ◌≡◌, ◌≢◌, refl, ap, sym, ◌∙◌, Bool, true, false, Option, none,
  some, List, [], ◌∷◌, ◌==◌, if◌then◌else◌, update, arith,
}
use rsim.Prelude.Result.{Result, ok, fatal, ◌>>=◌, Returns}
use rsim.Req.{ReqType, Protocol}
use rsim.PortQueue.{Port}
use rsim.Directory.{
  Dir, DirLine, DirEp, Req, Params, Response, visit_mem, wait_cnt, dir_reply, LineState, uncached,
  dir_shared, dir_private, Kind, request, cohe_reply, no_reply, req_fwd, nack_ok, req_unknown,
  new_extra,
}
use rsim.Directory.Table.{new_line}
use rsim.Directory.Sharers.{bit_of, find_fm}
use rsim.Directory.Sharers.Found.{Found, find_fm-Found}
use rsim.Directory.Sharers.Count.{IsValid, count}
use rsim.Directory.Cohe.{read_own, upgrade, by_type, cohe_line}
use rsim.Directory.Cohe.Invariant.{AllValid, put-IsValid}
use rsim.Directory.Cohe.Owner.{Owned, read_own-Owned, upgrade-Owned}

abbrev pub params : Params
params = record {
  cc_protocol = Protocol.mesi;
  req_sz = 16;
  linesz = 64;
  memsim_stat_on = false;
  pkt_create_time = 0;
  addtl_pkt_crtime = 0;
}

-- a READ_OWN of node 1
abbrev pub asking : ReqType → Req
asking t = record {
  tag = 7;
  req_type = t;
  priority = 0;
  src_node = 1;
  dest_node = 0;
  forward_to = none;
  size_st = 16;
  size_req = 80;
  kind = request;
  reply = no_reply;
  dir = req_fwd;
  nack_st = nack_ok;
  dirdone = false;
  preprocessed = false;
  in_port_num = 0;
  dir_item = none;
  line_cold = false;
  handled = req_unknown;
  remote_miss = false;
}

abbrev pub port : List ℕ → ℕ → Port ℕ
port q n = record { queue = q; ov_req = none; q_size = n; q_sz_tot = 4; sleeps = false }

-- a line of the pool
abbrev pub fresh_line : ℕ → DirLine
fresh_line tag = record {
  tag = tag;
  vector = λ _ _. false;
  cold_vec = λ _ _. false;
  state = uncached;
  pend = false;
  numsharers = 0;
  extra = none;
}

-- the directory of node 0, with the line 0 in a state and with sharers
abbrev pub directory : ReqType → DirLine → Dir
directory t l = record {
  node_num = 0;
  num_nodes = 3;
  vec_index = 1;
  num_ports = 2;
  next_port = 0;
  outbound_reqs = [];
  ready_reqs = [];
  req_partial = none;
  was_pending = false;
  buftotsz = 0;
  bufmaxsz = 8;
  buf = [];
  bufsz_rdy = 0;
  outboundsz = 0;
  wait_cntsz = 0;
  extra = new_extra;
  data_hash = λ i. if i == 7 then 0 ∷ [] else [];
  lines = update (λ _. fresh_line 0) 0 l;
  next_line = 1;
  reqs = λ _. asking t;
  next_req = 5;
  in_ports = λ _. port (4 ∷ []) 1;
  out_ports = λ _. port [] 0;
}

-- nodes 1 and 2 share the line, or node 2 owns it
abbrev pub shared_line : DirLine
shared_line = record (fresh_line 7) {
  vector = λ i j. if i == 0 then (if j == 1 then true else j == 2) else false;
  state = dir_shared;
  numsharers = 2;
}

abbrev pub owned_line : DirLine
owned_line = record (fresh_line 7) {
  vector = λ i j. if i == 0 then j == 2 else false;
  state = dir_private;
  numsharers = 1;
}

fresh_line-IsValid : (tag : ℕ) → IsValid 1 (fresh_line tag)
unfolding count
fresh_line-IsValid tag = record { counted = refl; fits = refl }

pub shared_line-IsValid : IsValid 1 shared_line
unfolding count
shared_line-IsValid = record { counted = refl; fits = omega arith }

pub owned_line-IsValid : IsValid 1 owned_line
unfolding count
owned_line-IsValid = record { counted = refl; fits = refl }

pub directory-AllValid : (t : ReqType) (l : DirLine) → IsValid 1 l → AllValid (directory t l)
directory-AllValid t l v = record {
  roomy = omega arith;
  valid = put-IsValid 1 (λ _. fresh_line 0) 0 l (λ _. fresh_line-IsValid 0) v;
}

abbrev shared : Dir
shared = directory ReqType.read_own shared_line

abbrev upgrading : Dir
upgrading = directory ReqType.upgrade shared_line

find_fm-Found_example :
    Found (bit_of shared_line.vector) 1 32 (find_fm shared shared_line (some (λ _. 0)) 1)
find_fm-Found_example = find_fm-Found shared shared_line (λ _. 0) 1

read_own-Owned_example :
    Returns
      (λ (out : Response × Dir). Owned shared out.1 0 1 out.0 visit_mem)
      (read_own params dir_shared 4 0 shared)
read_own-Owned_example =
    read_own-Owned 4 0 shared (directory-AllValid ReqType.read_own shared_line shared_line-IsValid)
      (omega arith) params refl

upgrade-Owned_example :
    Returns
      (λ (out : Response × Dir). Owned upgrading out.1 0 1 out.0 dir_reply)
      (upgrade params dir_shared 4 0 upgrading)
upgrade-Owned_example =
    upgrade-Owned 4 0 upgrading (directory-AllValid ReqType.upgrade shared_line shared_line-IsValid)
      (omega arith) params refl refl
