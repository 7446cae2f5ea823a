-- ===== src/WriteBuffer.antt =====
-- The coalescing write buffer under a write-through L1 cache (MemSys/wb.c): what it does with a
-- request, and how it sends a line's writes on.
pub mod Lines
pub mod Valid
pub mod Effect
pub mod Refine
pub mod Send
mod Tests
use rsim.Prelude.{
  ℕ, ◌+◌, ◌-◌, Bool, true, false, not, ◌||◌, Option, none, some, List, [], ◌∷◌, ◌++◌, length, ◌==◌,
  if◌then◌else◌, update,
}
use rsim.Prelude.Result.{Result, ok, fatal}
use rsim.Req.{ReqType, is_req}
use rsim.Cache.{ReqPtr, Req}

-- `WBUFITEM`: `coal_req` and `counter` are the list and its length.
pub record Item : Type 0 where
  pub tag : ℕ
  pub req : ReqPtr
  pub coal_req : List ReqPtr

-- `WBUFFER`. `handled` are the requests whose `handled` is reqWBCOAL.
pub record WriteBuf : Type 0 where
  pub write_buffer : List Item
  pub wbuf_sz : ℕ
  pub wbuf_sz_tot : ℕ
  pub pipe_empty : Bool
  pub stall_wb_full : ℕ
  pub stall_coal_max : ℕ
  pub stall_read_match : ℕ
  pub coals : ℕ
  pub handled : ReqPtr → Bool

-- the results 0, 1 and 2 of `notpres_wb`
pub data HitType : Type 0 where
  same_word same_line no_match : HitType

abbrev pub is_write : Req → Bool
is_write r = is_req r.prcr_req_type ReqType.write

-- the requests that `WBSim` handles as reads: all others it handles as writes
abbrev pub handled_as_read : Req → Bool
handled_as_read r =
    let t = r.prcr_req_type in
    is_req t ReqType.read
    || is_req t ReqType.rmw
    || is_req t ReqType.l1read_prefetch
    || is_req t ReqType.l1write_prefetch
    || is_req t ReqType.l2read_prefetch
    || is_req t ReqType.l2write_prefetch

-- the first loop: the entry with the tag
unfoldable pub find_item : (tag : ℕ) → List Item → Option Item
find_item tag [] = none
find_item tag (it ∷ its) = let rest = find_item tag its in if tag == it.tag then some it else rest

-- the inner loop, over the coalesced accesses
pub any_address : (ℕ → Req) → (address : ℕ) → List ReqPtr → Bool
any_address reqs address [] = false
any_address reqs address (p ∷ ps) = (reqs p).address == address || any_address reqs address ps

pub hit_type : (ℕ → Req) → Item → (address : ℕ) → HitType
unfolding any_address
hit_type reqs it address =
    if (reqs it.req).address == address || any_address reqs address it.coal_req
    then same_word
    else same_line

-- `tempreq->coal_req[tempreq->counter++] = req` on the entry that the loop found
unfoldable pub coalesce_item : (tag : ℕ) → ReqPtr → List Item → List Item
coalesce_item tag rp [] = []
coalesce_item tag rp (it ∷ its) =
    let rest = it ∷ coalesce_item tag rp its in
    if tag == it.tag then record it { coal_req = it.coal_req ++ (rp ∷ []) } ∷ its else rest

-- a write that matches the entry
unfoldable pub join_item :
    (max_coals : ℕ) → Req → WriteBuf → ReqPtr → Item → HitType → Option HitType × WriteBuf
unfolding coalesce_item
join_item max_coals r w rp it h =
    if length it.coal_req == max_coals
    then (none, record w { stall_coal_max = w.stall_coal_max + 1 })
    else (
      some h,
      record w {
        write_buffer = coalesce_item r.tag rp w.write_buffer;
        coals = w.coals + 1;
        handled = update w.handled rp true;
      },
    )

-- a write that matches no entry
unfoldable pub new_item : Req → WriteBuf → ReqPtr → Option HitType × WriteBuf
new_item r w rp =
    if w.wbuf_sz == w.wbuf_sz_tot
    then (none, record w { stall_wb_full = w.stall_wb_full + 1 })
    else (
      some no_match,
      record w {
        write_buffer = w.write_buffer ++ ((record { tag = r.tag; req = rp; coal_req = [] }) ∷ []);
        wbuf_sz = w.wbuf_sz + 1;
        pipe_empty = false;
      },
    )

-- what follows the first loop, by the entry that it found
unfoldable pub by_match :
    (max_coals : ℕ) → (ℕ → Req) → WriteBuf → ReqPtr → Option Item → Option HitType × WriteBuf
unfolding hit_type join_item new_item
by_match max_coals reqs w rp (some it) =
    let h = hit_type reqs it (reqs rp).address in
    if is_write (reqs rp) then join_item max_coals (reqs rp) w rp it h else (some h, w)
by_match max_coals reqs w rp none =
    if is_write (reqs rp) then new_item (reqs rp) w rp else (some no_match, w)

-- `notpres_wb`: `none` for -1, a stall
unfoldable pub notpres_wb :
    (max_coals : ℕ) → (ℕ → Req) → WriteBuf → ReqPtr → Option HitType × WriteBuf
unfolding find_item by_match
notpres_wb max_coals reqs w rp =
    by_match max_coals reqs w rp (find_item (reqs rp).tag w.write_buffer)

-- what `WBSim` does with the request: send it on, take it out of its queue, or leave it there
pub data Action : Type 0 where
  passes takes stalls : Action

-- the case of a read, from the answer of `notpres_wb`
unfoldable pub read_action : Option HitType × WriteBuf → Action × WriteBuf
read_action (some no_match, w) = (passes, w)
read_action (_, w) = (stalls, record w { stall_read_match = w.stall_read_match + 1 })

-- that of the others. One that is no write has its answer, and nothing is stored.
unfoldable pub write_action : Option HitType × WriteBuf → Action × WriteBuf
write_action (some h, w) = (takes, w)
write_action (none, w) = (stalls, w)

-- `WBSim` on a REQUEST (its case 1)
unfoldable pub on_request : (max_coals : ℕ) → (ℕ → Req) → WriteBuf → ReqPtr → Action × WriteBuf
unfolding notpres_wb read_action write_action
on_request max_coals reqs w rp =
    let answer = notpres_wb max_coals reqs w rp in
    if handled_as_read (reqs rp) then read_action answer else write_action answer

-- The first entry leaves, unless the port is full: its request goes with the coalesced ones.
unfoldable pub send_first :
    (port_full : Bool) → WriteBuf → List Item → Option (ReqPtr × List ReqPtr) × WriteBuf
send_first port_full w [] = (none, w)
send_first port_full w (it ∷ its) = if port_full then (none, w) else (
  some (it.req, it.coal_req),
  record w {
    write_buffer = its;
    wbuf_sz = w.wbuf_sz - 1;
    pipe_empty = if w.wbuf_sz - 1 == 0 then true else w.pipe_empty;
  },
)

-- `WBSim` when there is no request to work on (its case 9)
unfoldable pub issue : (port_full : Bool) → WriteBuf → Option (ReqPtr × List ReqPtr) × WriteBuf
unfolding send_first
issue port_full w = send_first port_full w w.write_buffer
