-- ===== src/WriteBuffer/Lines.antt =====
-- The write buffer (MemSys/wb.c) as a queue of writes for each line.
use rsim.Prelude.{
  ℕ, ◌≡◌, refl, none, some, List, [], ◌∷◌, ◌++◌, ◌==◌, if◌then◌else◌, Bool-cases, inl, inr,
  ne_of_==, arith,
}
use rsim.Cache.{ReqPtr}
use rsim.WriteBuffer.{Item, find_item, coalesce_item}

-- the writes to the line with the tag, oldest first
abbrev pub writes_of : (tag : ℕ) → List Item → List ReqPtr
writes_of tag [] = []
writes_of tag (it ∷ its) = if tag == it.tag then it.req ∷ it.coal_req else writes_of tag its

-- An entry that is found holds the writes, and without one there are none.
pub find_item-some :
    (tag : ℕ) (its : List Item) (it : Item)
    → find_item tag its ≡ some it
    → writes_of tag its ≡ it.req ∷ it.coal_req
unfolding find_item
find_item-some tag [] it h = cc
find_item-some tag (x ∷ its) it h = elim (Bool-cases (tag == x.tag)) [
  | inl y ↦ let e : some x ≡ some it = rw y at h in let e' : x ≡ it = cc in rw (y, e')
  | inr n ↦ rw n (find_item-some tag its it (rw n at h))
]

pub find_item-none : (tag : ℕ) (its : List Item) → find_item tag its ≡ none → writes_of tag its ≡ []
unfolding find_item
find_item-none tag [] h = refl
find_item-none tag (x ∷ its) h = elim (Bool-cases (tag == x.tag)) [
  | inl y ↦ let e : some x ≡ none = rw y at h in cc
  | inr n ↦ rw n (find_item-none tag its (rw n at h))
]

-- A coalesced write comes behind the others of its line, and other lines stay as they are.
pub writes_of-coalesce_item :
    (tag : ℕ) (rp : ReqPtr) (its : List Item) (it : Item) (t : ℕ)
    → find_item tag its ≡ some it
    → writes_of t (coalesce_item tag rp its)
      ≡ (if t == tag then writes_of t its ++ (rp ∷ []) else writes_of t its)
unfolding find_item coalesce_item
writes_of-coalesce_item tag rp [] it t h = cc
writes_of-coalesce_item tag rp (x ∷ its) it t h = elim (Bool-cases (tag == x.tag)) [
  | inl y ↦ rw y (ground arith)
  | inr n ↦
      let rest = writes_of-coalesce_item tag rp its it t (rw n at h) in
      let ne = ne_of_== tag x.tag n in rw n (ground arith)
]

pub writes_of-append :
    (its : List Item) (x : Item) (t : ℕ)
    → writes_of x.tag its ≡ []
    → writes_of t (its ++ (x ∷ [])) ≡ (if t == x.tag then x.req ∷ x.coal_req else writes_of t its)
writes_of-append [] x t h = refl
writes_of-append (y ∷ its) x t h = elim (Bool-cases (x.tag == y.tag)) [
  | inl e ↦ let bad : y.req ∷ y.coal_req ≡ [] = rw e at h in cc
  | inr n ↦
      let rest = writes_of-append its x t (rw n at h) in
      let ne = ne_of_== x.tag y.tag n in ground arith
]
