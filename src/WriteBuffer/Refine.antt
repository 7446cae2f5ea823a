-- ===== src/WriteBuffer/Refine.antt =====
-- The write buffer (MemSys/wb.c) against its abstract view: a queue of writes for each line.
use rsim.Prelude.{
  ℕ, ◌+◌, ◌≡◌, refl, sym, ◌∙◌, false, [], ◌∷◌, ◌++◌, ◌==◌, ◌&&◌, if◌then◌else◌, arith,
  length-append,
}
use rsim.Cache.{ReqPtr, Req}
use rsim.WriteBuffer.{
  WriteBuf, is_write, handled_as_read, Action, passes, takes, stalls, on_request,
}
use rsim.WriteBuffer.Lines.{writes_of, writes_of-coalesce_item, writes_of-append}
use rsim.WriteBuffer.Valid.{
  IsValid, length-coalesce_item, coalesce_item-Fits, coalesce_item-IsDistinct, append-Fits,
  append-IsDistinct,
}
use rsim.WriteBuffer.Effect.{
  Effect, dropped, passed, waits, coalesced, entered, full_line, full_buffer, entry,
  on_request-Effect,
}

-- the state with its counters of stalls changed
stalled-IsValid :
    {max_coals : ℕ} {w : WriteBuf} (full line read : ℕ)
    → IsValid max_coals w
    → IsValid max_coals
        (record w { stall_wb_full = full; stall_coal_max = line; stall_read_match = read })
stalled-IsValid full line read h = record {
  counted = h.counted;
  bounded = h.bounded;
  flagged = h.flagged;
  fits = h.fits;
  distinct = h.distinct;
}

Effect-IsValid :
    (max_coals : ℕ) (r : Req) (rp : ReqPtr) (w : WriteBuf) (out : Action × WriteBuf)
    → IsValid max_coals w
    → Effect max_coals r rp w out
    → IsValid max_coals out.1
Effect-IsValid max_coals r rp w out h (dropped other nw) = h
Effect-IsValid max_coals r rp w out h (passed rd e) = h
Effect-IsValid max_coals r rp w out h (waits rd e) = stalled-IsValid _ _ _ h
Effect-IsValid max_coals r rp w out h (coalesced it other wr e room) = record {
  counted = h.counted ∙ sym (length-coalesce_item r.tag rp w.write_buffer);
  bounded = h.bounded;
  flagged = h.flagged;
  fits = coalesce_item-Fits max_coals r.tag rp w.write_buffer it e room h.fits;
  distinct = coalesce_item-IsDistinct r.tag rp w.write_buffer it e h.distinct;
}
Effect-IsValid max_coals r rp w out h (entered other wr e room) = record {
  counted = omega (arith, h.counted, length-append w.write_buffer (entry r.tag rp ∷ []));
  bounded = omega (arith, h.bounded, room);
  flagged = ground arith;
  fits = append-Fits max_coals w.write_buffer (entry r.tag rp) refl h.fits;
  distinct = append-IsDistinct w.write_buffer (entry r.tag rp) e h.distinct;
}
Effect-IsValid max_coals r rp w out h (full_line wr) = stalled-IsValid _ _ _ h
Effect-IsValid max_coals r rp w out h (full_buffer wr) = stalled-IsValid _ _ _ h

-- The write buffer keeps its invariant over every request: the size is the number of entries and
-- within its limit, the flag says whether it is empty, no entry has more than MAX_COALS coalesced
-- writes, and no two entries are for one line.
pub on_request-IsValid :
    (max_coals : ℕ) (reqs : ℕ → Req) (w : WriteBuf) (rp : ReqPtr)
    → IsValid max_coals w
    → IsValid max_coals (on_request max_coals reqs w rp).1
on_request-IsValid max_coals reqs w rp h =
    Effect-IsValid max_coals (reqs rp) rp w _ h (on_request-Effect max_coals reqs w rp)

Effect-takes :
    (max_coals : ℕ) (r : Req) (rp : ReqPtr) (w : WriteBuf) (out : Action × WriteBuf) (t : ℕ)
    → Effect max_coals r rp w out
    → out.0 ≡ takes
    → (handled_as_read r ≡ false)
      × (writes_of t out.1.write_buffer ≡ (
          if is_write r && (t == r.tag)
          then writes_of t w.write_buffer ++ (rp ∷ [])
          else writes_of t w.write_buffer))
Effect-takes max_coals r rp w out t (dropped other nw) k = (other, rw nw refl)
Effect-takes max_coals r rp w out t (passed rd e) k = cc
Effect-takes max_coals r rp w out t (waits rd e) k = cc
Effect-takes max_coals r rp w out t (coalesced it other wr e room) k =
    (other, rw wr (writes_of-coalesce_item r.tag rp w.write_buffer it t e))
Effect-takes max_coals r rp w out t (entered other wr e room) k =
    (other, let a = writes_of-append w.write_buffer (entry r.tag rp) t e in rw wr (ground arith))
Effect-takes max_coals r rp w out t (full_line wr) k = cc
Effect-takes max_coals r rp w out t (full_buffer wr) k = cc

-- A request that the write buffer takes is no READ, RMW or prefetch. If it is a WRITE, it comes behind
-- all earlier writes to its line and the writes to other lines are as before; a request of another
-- type that is taken leaves the writes to all lines as they were.
pub on_request-takes :
    (max_coals : ℕ) (reqs : ℕ → Req) (w : WriteBuf) (rp : ReqPtr) (t : ℕ)
    → (on_request max_coals reqs w rp).0 ≡ takes
    → (handled_as_read (reqs rp) ≡ false)
      × (writes_of t (on_request max_coals reqs w rp).1.write_buffer ≡ (
          if is_write (reqs rp) && (t == (reqs rp).tag)
          then writes_of t w.write_buffer ++ (rp ∷ [])
          else writes_of t w.write_buffer))
on_request-takes max_coals reqs w rp t k =
    Effect-takes max_coals (reqs rp) rp w _ t (on_request-Effect max_coals reqs w rp) k

Effect-passes :
    (max_coals : ℕ) (r : Req) (rp : ReqPtr) (w : WriteBuf) (out : Action × WriteBuf)
    → Effect max_coals r rp w out
    → out.0 ≡ passes
    → (is_write r ≡ false) × (writes_of r.tag w.write_buffer ≡ []) × (out.1 ≡ w)
Effect-passes max_coals r rp w out (dropped other nw) k = cc
Effect-passes max_coals r rp w out (passed rd e) k = (rd, e, refl)
Effect-passes max_coals r rp w out (waits rd e) k = cc
Effect-passes max_coals r rp w out (coalesced it other wr e room) k = cc
Effect-passes max_coals r rp w out (entered other wr e room) k = cc
Effect-passes max_coals r rp w out (full_line wr) k = cc
Effect-passes max_coals r rp w out (full_buffer wr) k = cc

-- A request that the write buffer lets by is no write, no write to its line is waiting, and the
-- buffer stays as it was: a read does not overtake a write to its line.
pub on_request-passes :
    (max_coals : ℕ) (reqs : ℕ → Req) (w : WriteBuf) (rp : ReqPtr)
    → (on_request max_coals reqs w rp).0 ≡ passes
    → (is_write (reqs rp) ≡ false)
      × (writes_of (reqs rp).tag w.write_buffer ≡ [])
      × ((on_request max_coals reqs w rp).1 ≡ w)
on_request-passes max_coals reqs w rp k =
    Effect-passes max_coals (reqs rp) rp w _ (on_request-Effect max_coals reqs w rp) k

Effect-stalls :
    (max_coals : ℕ) (r : Req) (rp : ReqPtr) (w : WriteBuf) (out : Action × WriteBuf)
    → Effect max_coals r rp w out
    → out.0 ≡ stalls
    → (out.1.write_buffer ≡ w.write_buffer)
      × (out.1.wbuf_sz ≡ w.wbuf_sz)
      × (out.1.coals ≡ w.coals)
      × (out.1.stall_wb_full + out.1.stall_coal_max + out.1.stall_read_match
          ≡ w.stall_wb_full + w.stall_coal_max + w.stall_read_match + 1)
Effect-stalls max_coals r rp w out (dropped other nw) k = cc
Effect-stalls max_coals r rp w out (passed rd e) k = cc
Effect-stalls max_coals r rp w out (waits rd e) k = (refl, refl, refl, omega arith)
Effect-stalls max_coals r rp w out (coalesced it other wr e room) k = cc
Effect-stalls max_coals r rp w out (entered other wr e room) k = cc
Effect-stalls max_coals r rp w out (full_line wr) k = (refl, refl, refl, omega arith)
Effect-stalls max_coals r rp w out (full_buffer wr) k = (refl, refl, refl, omega arith)

-- A request that stalls leaves the entries, their number and the count of coalesced writes as they
-- were, and is counted as exactly one stall.
pub on_request-stalls :
    (max_coals : ℕ) (reqs : ℕ → Req) (w : WriteBuf) (rp : ReqPtr)
    → (on_request max_coals reqs w rp).0 ≡ stalls
    → ((on_request max_coals reqs w rp).1.write_buffer ≡ w.write_buffer)
      × ((on_request max_coals reqs w rp).1.wbuf_sz ≡ w.wbuf_sz)
      × ((on_request max_coals reqs w rp).1.coals ≡ w.coals)
      × ((on_request max_coals reqs w rp).1.stall_wb_full
            + (on_request max_coals reqs w rp).1.stall_coal_max
            + (on_request max_coals reqs w rp).1.stall_read_match
          ≡ w.stall_wb_full + w.stall_coal_max + w.stall_read_match + 1)
on_request-stalls max_coals reqs w rp k =
    Effect-stalls max_coals (reqs rp) rp w _ (on_request-Effect max_coals reqs w rp) k
