-- ===== src/WriteBuffer/Send.antt =====
-- The write buffer (MemSys/wb.c) sends its entries on, a line at a time.
use rsim.Prelude.{
  ℕ, zero, suc, ◌-◌, ◌≡◌, refl, sym, ◌∙◌, ap, Bool, true, false, Option, none, some, ◌++◌, List, [],
  ◌∷◌, ◌==◌, if◌then◌else◌, arith, length,
}
use mathlib.Core.Path.{subst}
use rsim.Cache.{ReqPtr}
use rsim.WriteBuffer.{Item, WriteBuf, send_first, issue}
use rsim.WriteBuffer.Lines.{writes_of}
use rsim.WriteBuffer.Valid.{IsValid}

-- the state without the first entry
abbrev rest_of : WriteBuf → List Item → WriteBuf
rest_of w its = record w {
  write_buffer = its;
  wbuf_sz = w.wbuf_sz - 1;
  pipe_empty = if w.wbuf_sz - 1 == 0 then true else w.pipe_empty;
}

rest_of-IsValid :
    {max_coals : ℕ} (w : WriteBuf) (it : Item) (its : List Item)
    → w.write_buffer ≡ it ∷ its
    → IsValid max_coals w
    → IsValid max_coals (rest_of w its)
rest_of-IsValid {max_coals} w it its e h =
    let n : w.wbuf_sz ≡ suc (length its) = h.counted ∙ ap length e in
    let b = h.bounded in
    let g = h.flagged in
    record {
      counted = omega (arith, n);
      bounded = omega (arith, b);
      flagged = ground arith;
      fits = (rw e at h.fits).1;
      distinct = (rw e at h.distinct).1;
    }

-- what has left, and what is left, as lines
pub Leaves : (u : ℕ) → WriteBuf → ReqPtr → List ReqPtr → WriteBuf → Type 0
Leaves u w r rs v =
    (t : ℕ) × (writes_of t w.write_buffer ≡ r ∷ rs)
    × (writes_of u v.write_buffer ≡ (if u == t then [] else writes_of u w.write_buffer))

send_first-Leaves :
    (max_coals : ℕ) (port_full : Bool) (w : WriteBuf) (its : List Item) (r : ReqPtr)
    (rs : List ReqPtr) (v : WriteBuf) (u : ℕ)
    → w.write_buffer ≡ its
    → IsValid max_coals w
    → send_first port_full w its ≡ (some (r, rs), v)
    → Leaves u w r rs v × IsValid max_coals v
unfolding send_first Leaves
send_first-Leaves max_coals port_full w [] r rs v u e h s = cc
send_first-Leaves max_coals true w (it ∷ its) r rs v u e h s = cc
send_first-Leaves max_coals false w (it ∷ its) r rs v u e h s =
    let same : rest_of w its ≡ v = ap (λ p. p.1) s in
    let sent : (some (it.req, it.coal_req)) ≡ (some (r, rs)) = ap (λ p. p.0) s in
    let none_left : writes_of it.tag its ≡ [] = (rw e at h.distinct).0 in
    (
      (it.tag, rw e (grind arith), rw (← same, e) (ground arith)),
      rw (← same) (rest_of-IsValid w it its e h),
    )

-- What the write buffer sends on, from a state that satisfies the invariant, is all that it holds for
-- one line, in order; nothing is left for that line, the other lines are as before, and the
-- invariant holds again.
pub issue-Leaves :
    (max_coals : ℕ) (port_full : Bool) (w : WriteBuf) (r : ReqPtr) (rs : List ReqPtr) (v : WriteBuf)
    (u : ℕ)
    → IsValid max_coals w
    → issue port_full w ≡ (some (r, rs), v)
    → Leaves u w r rs v × IsValid max_coals v
unfolding issue
issue-Leaves max_coals port_full w r rs v u h s =
    send_first-Leaves max_coals port_full w w.write_buffer r rs v u refl h s

-- the requests that a round sends
abbrev sent_of : Option (ReqPtr × List ReqPtr) → List ReqPtr
sent_of none = []
sent_of (some (r, rs)) = r ∷ rs

-- `n` rounds in which the port has room and no request comes: all that is sent, in order, and the
-- state after them
pub drain : ℕ → WriteBuf → List ReqPtr × WriteBuf
drain zero w = ([], w)
drain (suc n) w =
    let round = issue false w in
    let later = drain n round.1 in (sent_of round.0 ++ later.0, later.1)

-- all writes of the entries, in order
abbrev pub all_writes : List Item → List ReqPtr
all_writes [] = []
all_writes (it ∷ its) = (it.req ∷ it.coal_req) ++ all_writes its

-- the entries leave one by one
drained :
    (its : List Item) (w : WriteBuf)
    → w.write_buffer ≡ its
    → ((drain (length its) w).0 ≡ all_writes its) × ((drain (length its) w).1.write_buffer ≡ [])
unfolding drain issue send_first
drained [] w e = (refl, e)
drained (it ∷ its) w e = rw e (
    let later = drained its (rest_of w its) refl in
    (ap (λ (rs : List ReqPtr). (it.req ∷ it.coal_req) ++ rs) later.0, later.1))

-- While its port has room and no request comes, a write buffer that satisfies the invariant sends in
-- as many rounds as it has entries exactly the writes that it holds, each entry's with the coalesced
-- ones, in their order, and is empty then.
pub drain-all_writes :
    (max_coals : ℕ) (w : WriteBuf)
    → IsValid max_coals w
    → ((drain w.wbuf_sz w).0 ≡ all_writes w.write_buffer)
      × ((drain w.wbuf_sz w).1.write_buffer ≡ [])
drain-all_writes max_coals w h =
    subst
      (λ (n : ℕ). ((drain n w).0 ≡ all_writes w.write_buffer) × ((drain n w).1.write_buffer ≡ []))
      (sym h.counted) (drained w.write_buffer w refl)
