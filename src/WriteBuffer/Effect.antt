-- ===== src/WriteBuffer/Effect.antt =====
-- What the write buffer (MemSys/wb.c) does with a request and when it sends an entry on.
use rsim.Prelude.{
  ℕ, ◌+◌, ◌≡◌, refl, ◌≢◌, true, false, Option, none, some, [], ◌∷◌, ◌++◌, ◌==◌, Bool-cases, ◌||◌,
  inl, inr, length, arith, ne_of_==, update, if_elim,
}
use rsim.Cache.{ReqPtr, Req}
use rsim.WriteBuffer.{
  Item, WriteBuf, is_write, handled_as_read, find_item, coalesce_item, any_address, hit_type,
  by_match, join_item, new_item, notpres_wb, Action, passes, takes, stalls, read_action,
  write_action, on_request,
}
use rsim.WriteBuffer.Lines.{writes_of, find_item-some, find_item-none}

abbrev pub entry : ℕ → ReqPtr → Item
entry tag rp = record { tag = tag; req = rp; coal_req = [] }

-- the things that can happen to a request
pub data Effect (max_coals : ℕ) (r : Req) (rp : ReqPtr) (w : WriteBuf)
    : Action × WriteBuf → Type 0 where
  dropped : handled_as_read r ≡ false → is_write r ≡ false → Effect max_coals r rp w (takes, w)
  passed :
      is_write r ≡ false → writes_of r.tag w.write_buffer ≡ [] → Effect max_coals r rp w (passes, w)
  waits :
      is_write r ≡ false
      → writes_of r.tag w.write_buffer ≢ []
      → Effect max_coals r rp w (stalls, record w { stall_read_match = w.stall_read_match + 1 })
  coalesced :
      (it : Item)
      → handled_as_read r ≡ false
      → is_write r ≡ true
      → find_item r.tag w.write_buffer ≡ some it
      → length it.coal_req ≢ max_coals
      → Effect max_coals r rp w (
        takes,
        record w {
          write_buffer = coalesce_item r.tag rp w.write_buffer;
          coals = w.coals + 1;
          handled = update w.handled rp true;
        },
      )
  entered :
      handled_as_read r ≡ false
      → is_write r ≡ true
      → writes_of r.tag w.write_buffer ≡ []
      → w.wbuf_sz ≢ w.wbuf_sz_tot
      → Effect max_coals r rp w (
        takes,
        record w {
          write_buffer = w.write_buffer ++ (entry r.tag rp ∷ []);
          wbuf_sz = w.wbuf_sz + 1;
          pipe_empty = false;
        },
      )
  full_line :
      is_write r ≡ true
      → Effect max_coals r rp w (stalls, record w { stall_coal_max = w.stall_coal_max + 1 })
  full_buffer :
      is_write r ≡ true
      → Effect max_coals r rp w (stalls, record w { stall_wb_full = w.stall_wb_full + 1 })

module _ (max_coals : ℕ) (reqs : ℕ → Req) (w : WriteBuf) (rp : ReqPtr) where
  abbrev r : Req
  r = reqs rp

  write-Effect :
      (o : Option Item)
      → find_item r.tag w.write_buffer ≡ o
      → handled_as_read r ≡ false
      → is_write r ≡ true
      → Effect max_coals r rp w (write_action (by_match max_coals reqs w rp o))
  unfolding by_match join_item new_item write_action
  write-Effect none e other wr = elim (Bool-cases (w.wbuf_sz == w.wbuf_sz_tot)) [
    | inl y ↦ rw (wr, y) (full_buffer wr)
    | inr n ↦
        rw (wr, n)
          (entered other wr (find_item-none r.tag w.write_buffer e)
            (ne_of_== w.wbuf_sz w.wbuf_sz_tot n))
  ]
  write-Effect (some it) e other wr = elim (Bool-cases (length it.coal_req == max_coals)) [
    | inl y ↦ rw (wr, y) (full_line wr)
    | inr n ↦ rw (wr, n) (coalesced it other wr e (ne_of_== (length it.coal_req) max_coals n))
  ]

  read-Effect :
      (o : Option Item)
      → find_item r.tag w.write_buffer ≡ o
      → is_write r ≡ false
      → Effect max_coals r rp w (read_action (by_match max_coals reqs w rp o))
  unfolding by_match read_action hit_type
  read-Effect none e rd = rw rd (passed rd (find_item-none r.tag w.write_buffer e))
  read-Effect (some it) e rd =
      let found = find_item-some r.tag w.write_buffer it e in
      let here : writes_of r.tag w.write_buffer ≢ [] = λ z. cc in
      elim (Bool-cases
        ((reqs it.req).address == r.address || any_address reqs r.address it.coal_req)) [
          | inl y ↦ rw (rd, y) (waits rd here)
          | inr n ↦ rw (rd, n) (waits rd here)
        ]

  -- no read is a write
  no_write : handled_as_read r ≡ true → is_write r ≡ false
  no_write rd = ground arith

  -- what is neither
  dropped-Effect :
      (o : Option Item)
      → handled_as_read r ≡ false
      → is_write r ≡ false
      → Effect max_coals r rp w (write_action (by_match max_coals reqs w rp o))
  unfolding by_match write_action
  dropped-Effect none other nw = rw nw (dropped other nw)
  dropped-Effect (some it) other nw = rw nw (dropped other nw)

  pub on_request-Effect : Effect max_coals r rp w (on_request max_coals reqs w rp)
  unfolding on_request notpres_wb
  on_request-Effect =
      if_elim (Effect max_coals r rp w) (handled_as_read r) (λ rd. read-Effect _ refl (no_write rd))
        (λ other. elim (Bool-cases (is_write r)) [
          | inl wr ↦ write-Effect _ refl other wr
          | inr nw ↦ dropped-Effect _ other nw
        ])
