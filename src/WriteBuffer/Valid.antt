-- ===== src/WriteBuffer/Valid.antt =====
-- The invariant of the write buffer (MemSys/wb.c), and the list operations that keep it.
use rsim.Prelude.{
  ℕ, ◌≤◌, ◌≡◌, refl, ◌≢◌, some, List, [], ◌∷◌, ◌++◌, ◌==◌, Bool-cases, inl, inr, arith, length,
  length-append, ne_of_==,
}
use rsim.Cache.{ReqPtr}
use rsim.WriteBuffer.{Item, WriteBuf, find_item, coalesce_item}
use rsim.WriteBuffer.Lines.{writes_of, writes_of-coalesce_item, writes_of-append}

-- no two entries for one line
abbrev pub IsDistinct : List Item → Type 0
IsDistinct [] = Unit
IsDistinct (it ∷ its) = (writes_of it.tag its ≡ []) × IsDistinct its

-- no entry with more than MAX_COALS coalesced writes
abbrev pub Fits : (max_coals : ℕ) → List Item → Type 0
Fits max_coals [] = Unit
Fits max_coals (it ∷ its) = (length it.coal_req ≤ max_coals) × Fits max_coals its

pub record IsValid (max_coals : ℕ) (w : WriteBuf) : Type 0 where
  pub counted : w.wbuf_sz ≡ length w.write_buffer
  pub bounded : w.wbuf_sz ≤ w.wbuf_sz_tot
  pub flagged : w.pipe_empty ≡ (w.wbuf_sz == 0)
  pub fits : Fits max_coals w.write_buffer
  pub distinct : IsDistinct w.write_buffer

pub length-coalesce_item :
    (tag : ℕ) (rp : ReqPtr) (its : List Item) → length (coalesce_item tag rp its) ≡ length its
unfolding coalesce_item
length-coalesce_item tag rp [] = refl
length-coalesce_item tag rp (x ∷ its) = elim (Bool-cases (tag == x.tag)) [
  | inl y ↦ rw y
  | inr n ↦ rw n (omega (arith, length-coalesce_item tag rp its))
]

pub coalesce_item-Fits :
    (max_coals tag : ℕ) (rp : ReqPtr) (its : List Item) (it : Item)
    → find_item tag its ≡ some it
    → length it.coal_req ≢ max_coals
    → Fits max_coals its
    → Fits max_coals (coalesce_item tag rp its)
unfolding coalesce_item find_item
coalesce_item-Fits max_coals tag rp [] it h ne f = f
coalesce_item-Fits max_coals tag rp (x ∷ its) it h ne f = elim (Bool-cases (tag == x.tag)) [
  | inl y ↦
      let e : some x ≡ some it = rw y at h in
      let e' : x ≡ it = cc in
      let room : length x.coal_req ≢ max_coals = rw (← e') at ne in
      rw y (omega (arith, length-append x.coal_req (rp ∷ []), f.0, room), f.1)
  | inr n ↦ rw n (f.0, coalesce_item-Fits max_coals tag rp its it (rw n at h) ne f.1)
]

pub coalesce_item-IsDistinct :
    (tag : ℕ) (rp : ReqPtr) (its : List Item) (it : Item)
    → find_item tag its ≡ some it
    → IsDistinct its
    → IsDistinct (coalesce_item tag rp its)
unfolding coalesce_item find_item
coalesce_item-IsDistinct tag rp [] it h d = d
coalesce_item-IsDistinct tag rp (x ∷ its) it h d = elim (Bool-cases (tag == x.tag)) [
  | inl y ↦ rw y d
  | inr n ↦
      let ne = ne_of_== tag x.tag n in
      let h' : find_item tag its ≡ some it = rw n at h in
      let same = writes_of-coalesce_item tag rp its it x.tag h' in
      let old = d.0 in
      let kept : writes_of x.tag (coalesce_item tag rp its) ≡ [] = ground arith in
      rw n (kept, coalesce_item-IsDistinct tag rp its it h' d.1)
]

pub append-Fits :
    (max_coals : ℕ) (its : List Item) (x : Item)
    → x.coal_req ≡ []
    → Fits max_coals its
    → Fits max_coals (its ++ (x ∷ []))
append-Fits max_coals [] x e f = (rw e (omega arith), tt)
append-Fits max_coals (y ∷ its) x e f = (f.0, append-Fits max_coals its x e f.1)

pub append-IsDistinct :
    (its : List Item) (x : Item)
    → writes_of x.tag its ≡ []
    → IsDistinct its
    → IsDistinct (its ++ (x ∷ []))
append-IsDistinct [] x e d = (refl, tt)
append-IsDistinct (y ∷ its) x e d = elim (Bool-cases (x.tag == y.tag)) [
  | inl z ↦ let bad : y.req ∷ y.coal_req ≡ [] = rw z at e in cc
  | inr n ↦
      let ne = ne_of_== x.tag y.tag n in
      let e' : writes_of x.tag its ≡ [] = rw n at e in
      let w = writes_of-append its x y.tag e' in
      let old = d.0 in
      let kept : writes_of y.tag (its ++ (x ∷ [])) ≡ [] = ground arith in
      (kept, append-IsDistinct its x e' d.1)
]
