-- ===== src/Req.antt =====
-- The enumerations of incl/MemSys/req.h, cohe_types.h and cache.h that the coherence routines and
-- the MSHRs branch on. A constructor is the C enumerator in lower case.
pub mod Finite
use rsim.Prelude.{ℕ, Bool, ◌==◌}

-- `enum ReqType`
pub data ReqType : Type 0 where
  bad_req_type : ReqType
  read write rmw l1write_prefetch l1read_prefetch l2write_prefetch l2read_prefetch : ReqType
  tts spin writeflag : ReqType
  read_sh read_own upgrade read_disc write_inv rwrite : ReqType
  reply_sh reply_excl reply_upgrade reply_excldy reply_shdy reply_disc reply_writeinv : ReqType
  copyback copyback_invl invl copyback_shdy copyback_disc push : ReqType
  wrb repl : ReqType

-- the enumerator's value, by which the C code indexes its tables
abbrev pub req_code : ReqType → ℕ
req_code bad_req_type = 0
req_code read = 1
req_code write = 2
req_code rmw = 3
req_code l1write_prefetch = 4
req_code l1read_prefetch = 5
req_code l2write_prefetch = 6
req_code l2read_prefetch = 7
req_code tts = 8
req_code spin = 9
req_code writeflag = 10
req_code read_sh = 11
req_code read_own = 12
req_code upgrade = 13
req_code read_disc = 14
req_code write_inv = 15
req_code rwrite = 16
req_code reply_sh = 17
req_code reply_excl = 18
req_code reply_upgrade = 19
req_code reply_excldy = 20
req_code reply_shdy = 21
req_code reply_disc = 22
req_code reply_writeinv = 23
req_code copyback = 24
req_code copyback_invl = 25
req_code invl = 26
req_code copyback_shdy = 27
req_code copyback_disc = 28
req_code push = 29
req_code wrb = 30
req_code repl = 31

-- `enum CacheLineState`
pub data CacheLineState : Type 0 where
  bad_line_state invalid pr_cl sh_cl pr_dy sh_dy : CacheLineState

abbrev pub line_code : CacheLineState → ℕ
line_code bad_line_state = 0
line_code invalid = 1
line_code pr_cl = 2
line_code sh_cl = 3
line_code pr_dy = 4
line_code sh_dy = 5

-- the coherence types of cohe_types.h
pub data CoheType : Type 0 where
  pr_wt pr_wb wt_inv wt_upd wb_ref wb_nref wtwsh_ref wtwsh_nref nc : CoheType

-- `a == b` on request types and on line states: C compares the enumerators' values.
abbrev pub is_req : ReqType → ReqType → Bool
is_req a b = req_code a == req_code b

abbrev pub is_line : CacheLineState → CacheLineState → Bool
is_line a b = line_code a == line_code b

-- `CCProtocol` and `ReplacementHintsLevel`
pub data Protocol : Type 0 where
  mesi msi : Protocol

pub data Hints : Type 0 where
  hints_none hints_excl hints_all : Hints
