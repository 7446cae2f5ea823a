-- ===== src/Cache.antt =====
-- The state of a cache (incl/MemSys/cache.h, mshr.h and req.h): its lines, its MSHRs and the requests
-- that they point at, with the accessors that the modules below share.
pub mod Lookup
pub mod Lru
pub mod CoheRoutine
pub mod Frame
pub mod Present
pub mod Ages
pub mod Fill
pub mod Victim
pub mod Scan
pub mod Choice
pub mod Replace
mod Tests
use rsim.Prelude.{
  ℕ, ◌+◌, ◌/◌, ◌%◌, Bool, true, false, Option, none, some, leb, ◌==◌, if◌then◌else◌, update,
}
use rsim.Prelude.Result.{Result}
use rsim.Req.{ReqType, CacheLineState, CoheType}
use rsim.Coherence.{Outcome}

-- `REQ *`, by its address
abbrev pub ReqPtr : Type 0
ReqPtr = ℕ

-- `req->s.type`
pub data TransType : Type 0 where
  request reply cohe cohe_reply : TransType

-- `req->s.reply`
pub data ReplyType : Type 0 where
  ack rar nack nack_pend : ReplyType

-- `struct YS__Req`, as far as the code modelled here reads or writes it. `nack_nok` says that
-- `s.nack_st` is NACK_NOK, `prefetch` that `s.prefetch` is not 0.
pub record Req : Type 0 where
  pub address : ℕ
  pub tag : ℕ
  pub linesz : ℕ
  pub req_type : ReqType
  pub prcr_req_type : ReqType
  pub trans : TransType
  pub reply_st : ReplyType
  pub nack_nok : Bool
  pub prefetch : Bool
  pub size_st : ℕ
  pub size_req : ℕ
  pub cohe_type : CoheType
  pub allo_type : Bool
  pub dest_node : ℕ
  pub read_with_write : Bool

-- `struct cache_data_struct`. A tag of -1 is `none`. `pref_time`, a statistic, is left out.
pub record Line : Type 0 where
  pub tag : Option ℕ
  pub age : ℕ
  pub dest_node : ℕ
  pub pref : Bool
  pub pref_tag_repl : Option ℕ
  pub st : CacheLineState
  pub cohe_type : CoheType
  pub allo_type : Bool
  pub mshr_out : Bool
  pub cohe_pend : Bool

-- `struct YS__MSHR`. `pend_cohe_type` is `bad_req_type` for none, and `demand` is `none` for -1.0.
pub record Mshr : Type 0 where
  pub valid : Bool
  pub setnum : ℕ
  pub mainreq : ReqPtr
  pub counter : ℕ
  pub coal_req : ℕ → ReqPtr
  pub pend_cohe_type : ReqType
  pub stall_war : Bool
  pub demand : Option ℕ
  pub only_prefs : Bool
  pub writes_present : Bool

-- `cache_level_type`: FIRSTLEVEL_WT, FIRSTLEVEL_WB, SECONDLEVEL
pub data CacheLevel : Type 0 where
  firstlevel_wt firstlevel_wb secondlevel : CacheLevel

pub data Replacement : Type 0 where
  lru fifo random : Replacement

-- the counters of `struct CacheStat` that the code modelled here steps
pub record Stat : Type 0 where
  pub pipe_stall_mshr_war : ℕ
  pub pipe_stall_mshr_full : ℕ
  pub pipe_stall_mshr_cohe : ℕ
  pub pipe_stall_mshr_coal : ℕ
  pub pipe_stall_wrb_match : ℕ
  pub pipe_stall_wrbbuf_full : ℕ
  pub pipe_stall_pend_cohe : ℕ
  pub pref_useful : ℕ
  pub pref_late : ℕ
  pub pref_damaging : ℕ
  pub pref_useless : ℕ

-- `struct YS__Cache`. `data` is the array of arrays of SUB_SZ lines; `infinite` says that `size` is
-- INFINITE, and `cohe_rtn` is the function that the field points at.
pub record Cache : Type 0 where
  pub level : CacheLevel
  pub infinite : Bool
  pub linesz : ℕ
  pub setsz : ℕ
  pub cohe_type : CoheType
  pub allo_type : Bool
  pub adap_type : Bool
  pub replacement : Replacement
  pub cohe_rtn : CacheLineState → Bool → ReqType → CoheType → Result Outcome
  pub data_of : ℕ → ℕ → Line
  pub num_lines : ℕ
  pub block_bits : ℕ
  pub set_bits : ℕ
  pub non_tag_bits : ℕ
  pub mshrs : ℕ → Mshr
  pub mshr_count : ℕ
  pub reqmshr_count : ℕ
  pub reqs_at_mshr_count : ℕ
  pub max_mshrs : ℕ
  pub wrb_buf_used : ℕ
  pub node_num : ℕ
  pub stat : Stat

-- SUB_SZ
abbrev pub sub_sz : ℕ
sub_sz = 2048

-- the cache whose lines fit in one array
abbrev pub is_small : Cache → Bool
is_small c = leb c.num_lines sub_sz

-- `data[0][k]` in the code for small caches, `data[k / SUB_SZ][k % SUB_SZ]` in that for others
abbrev pub line_at : Bool → (ℕ → ℕ → Line) → ℕ → Line
line_at small d k = if small then d 0 k else d (k / sub_sz) (k % sub_sz)

abbrev pub put_line : Bool → (ℕ → ℕ → Line) → ℕ → Line → ℕ → ℕ → Line
put_line small d k l =
    if small
    then update d 0 (update (d 0) k l)
    else update d (k / sub_sz) (update (d (k / sub_sz)) (k % sub_sz) l)

abbrev pub line : Cache → ℕ → Line
line c k = line_at (is_small c) c.data_of k

abbrev pub set_line : Cache → ℕ → Line → Cache
set_line c k l = record c { data_of = put_line (is_small c) c.data_of k l }
