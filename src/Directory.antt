-- ===== src/Directory.antt =====
-- The directory controller (MemSys/directory.c and incl/MemSys/directory.h): the state of a line, the
-- message that a line's transaction waits for, and the module itself. Requests and lines are in stores
-- by address, since the code keeps several pointers to one of them. An int that is -1 when there is
-- none is an `Option`.
pub mod Sharers
pub mod Table
pub mod Buffer
pub mod Pending
pub mod Cohe
pub mod Serve
pub mod Reply
pub mod Valid
pub mod Run
mod Tests
use rsim.Prelude.{ℕ, Bool, true, false, Option, none, some, List, update}
use rsim.Req.{ReqType, Protocol}
use rsim.PortQueue.{Port}

-- UNCACHED, DIR_SHARED and DIR_PRIVATE
pub data LineState : Type 0 where
  uncached dir_shared dir_private : LineState

-- what Dir_Cohe answers, and the `ret_st` of a transaction
pub data Response : Type 0 where
  wait_cnt wait_pend visit_mem dir_reply special_reply forward_request ack_reply wait_for_wrb :
      Response

-- `s.type`, `s.reply` and `s.dir` of a message; `no_reply` is 0
pub data Kind : Type 0 where
  request reply cohe cohe_reply : Kind

pub data Answer : Type 0 where
  no_reply positive rar nack nack_pend : Answer

pub data Direction : Type 0 where
  req_fwd req_bwd : Direction

-- NACK_OK and NACK_NOK
pub data NackSt : Type 0 where
  nack_ok nack_nok : NackSt

-- the values of `enum ReqStatType` that the directory tells apart; `req_other` stands for those of
-- the caches
pub data Handled : Type 0 where
  req_unknown req_other : Handled
  dir_lh_nocohe dir_lh_rcohe dir_rh_nocohe dir_rh_lcohe dir_rh_rcohe : Handled

-- the fields of `REQ` that the directory uses
pub record Req : Type 0 where
  pub tag : ℕ
  pub req_type : ReqType
  pub priority : ℕ
  pub src_node : ℕ
  pub dest_node : ℕ
  pub forward_to : Option ℕ
  pub size_st : ℕ
  pub size_req : ℕ
  pub kind : Kind
  pub reply : Answer
  pub dir : Direction
  pub nack_st : NackSt
  pub dirdone : Bool
  pub preprocessed : Bool
  pub in_port_num : ℕ
  pub dir_item : Option ℕ
  pub line_cold : Bool
  pub handled : Handled
  pub remote_miss : Bool

-- `DirEP`
pub record DirEp : Type 0 where
  pub pend_req : Option ℕ
  pub counter : ℕ
  pub num_left : ℕ
  pub ret_st : Response
  pub nack_st : NackSt
  pub waiting : Bool
  pub waiting_for : Option ℕ
  pub was_here : Option ℕ
  pub node_ary : ℕ → ℕ
  pub size_st : ℕ
  pub size_req : ℕ
  pub next_req_type : ReqType

-- `Dirst`. A word of a bit vector is its 32 bits, and `extra` the structure that the line points at.
pub record DirLine : Type 0 where
  pub tag : ℕ
  pub vector : ℕ → ℕ → Bool
  pub cold_vec : ℕ → ℕ → Bool
  pub state : LineState
  pub pend : Bool
  pub numsharers : ℕ
  pub extra : Option DirEp

-- CCProtocol, REQ_SZ, LINESZ, MemsimStatOn and the two delays of packet creation
pub record Params : Type 0 where
  pub cc_protocol : Protocol
  pub req_sz : ℕ
  pub linesz : ℕ
  pub memsim_stat_on : Bool
  pub pkt_create_time : ℕ
  pub addtl_pkt_crtime : ℕ

-- `DIR`, with the requests and the lines. A queue of requests is the list of their addresses. `lines`
-- are those got from the pool, the next at `next_line`; `data_hash` holds the chains of the table.
pub record Dir : Type 0 where
  pub node_num : ℕ
  pub num_nodes : ℕ
  pub vec_index : ℕ
  pub num_ports : ℕ
  pub next_port : ℕ
  pub outbound_reqs : List ℕ
  pub ready_reqs : List ℕ
  pub req_partial : Option ℕ
  pub was_pending : Bool
  pub buftotsz : ℕ
  pub bufmaxsz : ℕ
  pub buf : List ℕ
  pub bufsz_rdy : ℕ
  pub outboundsz : ℕ
  pub wait_cntsz : ℕ
  pub extra : DirEp
  pub data_hash : ℕ → List ℕ
  pub lines : ℕ → DirLine
  pub next_line : ℕ
  pub reqs : ℕ → Req
  pub next_req : ℕ
  pub in_ports : ℕ → Port ℕ
  pub out_ports : ℕ → Port ℕ

-- a structure of YS__DirEPPool, which hands out zeroed memory, as the directory sets it up
abbrev pub new_extra : DirEp
new_extra = record {
  pend_req = none;
  counter = 0;
  num_left = 0;
  ret_st = visit_mem;
  nack_st = nack_ok;
  waiting = false;
  waiting_for = none;
  was_here = none;
  node_ary = λ _. 0;
  size_st = 0;
  size_req = 0;
  next_req_type = ReqType.bad_req_type;
}

abbrev pub set_req : Dir → ℕ → Req → Dir
set_req d p r = record d { reqs = update d.reqs p r }

abbrev pub set_line : Dir → ℕ → DirLine → Dir
set_line d a l = record d { lines = update d.lines a l }

abbrev pub is_uncached : LineState → Bool
is_uncached uncached = true
is_uncached _ = false

abbrev pub is_shared : LineState → Bool
is_shared dir_shared = true
is_shared _ = false
