-- ===== src/WriteBuffer/Tests.antt =====
-- Runs of the write buffer, and the theorems applied to one with two entries.
use rsim.Prelude.{ℕ, ◌≡◌, refl, true, false, some, [], ◌∷◌, arith, ◌==◌, if◌then◌else◌}
use rsim.Req.{ReqType, wb_nref}
use rsim.Cache.{Req, request, ack}
use rsim.WriteBuffer.{
  WriteBuf, takes, passes, stalls, is_write, handled_as_read, on_request, notpres_wb, by_match,
  find_item, join_item, new_item, coalesce_item, hit_type, read_action, write_action, issue,
  send_first,
}
use rsim.WriteBuffer.Lines.{writes_of}
use rsim.WriteBuffer.Valid.{IsValid}
use rsim.WriteBuffer.Refine.{on_request-takes, on_request-passes}
use rsim.WriteBuffer.Send.{Leaves, issue-Leaves, drain, drain-all_writes}

-- The requests 1, 2 and 3 are writes to the block 20, the request 4 is a read of it, and the others
-- are reads of the block 30.
abbrev reqs : ℕ → Req
reqs p = record {
  address = if p == 1 then 1280 else if p == 2 then 1284 else if p == 3 then 1288 else 1920;
  tag =
      if p == 1
      then 20
      else if p == 2
      then 20
      else if p == 3
      then 20
      else if p == 4
      then 20
      else 30;
  linesz = 64;
  req_type = ReqType.read;
  prcr_req_type =
      if p == 1
      then ReqType.write
      else if p == 2
      then ReqType.write
      else if p == 3
      then ReqType.write
      else ReqType.read;
  trans = request;
  reply_st = ack;
  nack_nok = false;
  prefetch = false;
  size_st = 0;
  size_req = 0;
  cohe_type = wb_nref;
  allo_type = true;
  dest_node = 0;
  read_with_write = false;
}

-- an entry for the block 20 with one coalesced write, and one for the block 40
abbrev two_lines : WriteBuf
two_lines = record {
  write_buffer =
      (record { tag = 20; req = 1; coal_req = 2 ∷ [] })
      ∷ (record { tag = 40; req = 9; coal_req = [] })
      ∷ [];
  wbuf_sz = 2;
  wbuf_sz_tot = 4;
  pipe_empty = false;
  stall_wb_full = 0;
  stall_coal_max = 0;
  stall_read_match = 0;
  coals = 1;
  handled = λ p. p == 2;
}

two_lines-IsValid : IsValid 4 two_lines
two_lines-IsValid = record {
  counted = refl;
  bounded = omega arith;
  flagged = refl;
  fits = (omega arith, (omega arith, tt));
  distinct = (refl, (refl, tt));
}

takes_third : (on_request 4 reqs two_lines 3).0 ≡ takes
unfolding on_request notpres_wb by_match find_item join_item new_item coalesce_item hit_type
    read_action write_action
takes_third = refl

passes_other : (on_request 4 reqs two_lines 5).0 ≡ passes
unfolding on_request notpres_wb by_match find_item join_item new_item coalesce_item hit_type
    read_action write_action
passes_other = refl

read_waits : (on_request 4 reqs two_lines 4).0 ≡ stalls
unfolding on_request notpres_wb by_match find_item join_item new_item coalesce_item hit_type
    read_action write_action
read_waits = refl

on_request-takes_example :
    (handled_as_read (reqs 3) ≡ false)
    × (writes_of 20 (on_request 4 reqs two_lines 3).1.write_buffer ≡ 1 ∷ 2 ∷ 3 ∷ [])
on_request-takes_example = on_request-takes 4 reqs two_lines 3 20 takes_third

on_request-passes_example :
    (is_write (reqs 5) ≡ false)
    × (writes_of 30 two_lines.write_buffer ≡ [])
    × ((on_request 4 reqs two_lines 5).1 ≡ two_lines)
on_request-passes_example = on_request-passes 4 reqs two_lines 5 passes_other

sends_first : issue false two_lines ≡ (some (1, 2 ∷ []), (issue false two_lines).1)
unfolding issue send_first
sends_first = refl

issue-Leaves_example :
    Leaves 40 two_lines 1 (2 ∷ []) (issue false two_lines).1 × IsValid 4 (issue false two_lines).1
issue-Leaves_example =
    issue-Leaves 4 false two_lines 1 (2 ∷ []) (issue false two_lines).1 40 two_lines-IsValid
      sends_first

drain-all_writes_example :
    ((drain 2 two_lines).0 ≡ 1 ∷ 2 ∷ 9 ∷ []) × ((drain 2 two_lines).1.write_buffer ≡ [])
drain-all_writes_example = drain-all_writes 4 two_lines two_lines-IsValid
