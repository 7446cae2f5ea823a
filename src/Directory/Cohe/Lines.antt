-- ===== src/Directory/Cohe/Lines.antt =====
-- `Dir_Cohe` (MemSys/directory.c) keeps the invariant of the directory's lines.
use rsim.Prelude.{
  ℕ, ◌+◌, ◌*◌, ◌≤◌, ◌<◌, ◌≡◌, ap, refl, sym, ◌∙◌, Bool, true, leb, ==_ne, ==_refl, if◌then◌else◌,
  if_elim, arith,
}
use rsim.Prelude.Result.{OnOk}
use rsim.Directory.{DirLine, Dir, Req}
use rsim.Directory.Sharers.{bit_of, put_bit, only, cold, add_fm, rm_all_add_fm, rm_all_fm}
use rsim.Directory.Sharers.Count.{
  count, count-put_bit, count_pos, count-one, count-none, bit_of-put_bit, bit_of-only,
}

-- the count of a line's sharers is right
abbrev pub Counted : ℕ → DirLine → Type 0
Counted words l = l.numsharers ≡ count (bit_of l.vector) (words * 32)

-- what an operation on the sharers leaves of a line: all but the vectors and the count
pub record Keeps (l k : DirLine) : Type 0 where
  pub tag : k.tag ≡ l.tag
  pub state : k.state ≡ l.state
  pub pend : k.pend ≡ l.pend
  pub extra : k.extra ≡ l.extra

pub Keeps-trans : (l k m : DirLine) → Keeps l k → Keeps k m → Keeps l m
Keeps-trans l k m a b = record {
  tag = b.tag ∙ a.tag;
  state = b.state ∙ a.state;
  pend = b.pend ∙ a.pend;
  extra = b.extra ∙ a.extra;
}

pub cold-vector :
    (l : DirLine) (n : ℕ) (r : Req)
    → ((cold l n r).0.vector ≡ l.vector)
      × ((cold l n r).0.numsharers ≡ l.numsharers)
      × Keeps l (cold l n r).0
unfolding cold
cold-vector l n r = ground arith

module _ (words : ℕ) (l : DirLine) (n : ℕ) (r : Req) where
  cold-Counted : Counted words l → Counted words (cold l n r).0
  cold-Counted h =
      (cold-vector l n r).1
      ∙ h
      ∙ ap (λ (v : ℕ → ℕ → Bool). count (bit_of v) (words * 32)) (sym (cold-vector l n r).0)

-- what the three operations give
abbrev pub Added : Dir → DirLine → Bool × DirLine × Req → Type 0
Added d l c =
    Counted d.vec_index c.1
    × (0 < c.1.numsharers)
    × (c.1.numsharers ≤ l.numsharers + 1)
    × Keeps l c.1
    × (c.0 ≡ true → c.1.numsharers ≡ 1)

abbrev pub Alone : Dir → DirLine → DirLine × Req → Type 0
Alone d l c = Counted d.vec_index c.0 × (c.0.numsharers ≡ 1) × Keeps l c.0

abbrev pub Emptied : Dir → DirLine → DirLine → Type 0
Emptied d l k = Counted d.vec_index k × (k.numsharers ≡ 0) × Keeps l k

-- A node becomes a sharer.
pub add_fm-Counted :
    (d : Dir) (l : DirLine) (n : ℕ) (r : Req)
    → d.num_nodes ≤ d.vec_index * 32
    → Counted d.vec_index l
    → OnOk (Added d l) (add_fm d l n r)
unfolding add_fm
add_fm-Counted d l n r small h =
    if_elim (OnOk _) (leb d.num_nodes n) (λ _. tt)
      (λ inside.
        let had = bit_of l.vector n in
        let in_range : n < d.vec_index * 32 = ground arith in
        let total = count-put_bit l.vector n (d.vec_index * 32) in_range in
        let on : bit_of (put_bit l.vector n true) n ≡ true =
          bit_of-put_bit l.vector n true n ∙ ground (arith, ==_refl n) in
        let a : DirLine = record l {
          numsharers = if had then l.numsharers else l.numsharers + 1;
          vector = put_bit l.vector n true;
        } in
        let counted : Counted d.vec_index a = ground (arith, total, h) in
        let facts = cold-vector a n r in
        (
          cold-Counted d.vec_index a n r counted,
          omega (
            arith,
            facts.1,
            counted,
            count_pos (bit_of a.vector) n (d.vec_index * 32) in_range on,
          ),
          ground (arith, facts.1),
          Keeps-trans l a _ (record { tag = refl; state = refl; pend = refl; extra = refl })
              facts.2,
          λ alone. facts.1 ∙ ground arith,
        ))

-- A node becomes the only sharer.
pub rm_all_add_fm-Counted :
    (d : Dir) (l : DirLine) (n : ℕ) (r : Req)
    → d.num_nodes ≤ d.vec_index * 32
    → OnOk (Alone d l) (rm_all_add_fm d l n r)
unfolding rm_all_add_fm
rm_all_add_fm-Counted d l n r small =
    if_elim (OnOk _) (leb d.num_nodes n) (λ _. tt)
      (λ inside.
        let a : DirLine = record l { numsharers = 1; vector = only d.vec_index n l.vector } in
        let in_range : n < d.vec_index * 32 = ground arith in
        let bits = bit_of-only d.vec_index n l.vector in
        (
          cold-Counted d.vec_index a n r (
              sym (
                count-one (bit_of a.vector) n (d.vec_index * 32) in_range
                  (bits n in_range ∙ ==_refl n) (λ k l e. bits k l ∙ ==_ne k n e))),
          (cold-vector a n r).1,
          Keeps-trans l a _ (record { tag = refl; state = refl; pend = refl; extra = refl })
              (cold-vector a n r).2,
        ))

pub rm_all_fm-Counted : (d : Dir) (l : DirLine) (n : ℕ) → OnOk (Emptied d l) (rm_all_fm d l n)
unfolding rm_all_fm
rm_all_fm-Counted d l n =
    if_elim (OnOk _) (leb d.num_nodes n) (λ _. tt)
      (λ inside. (
        sym (count-none _ (d.vec_index * 32) (λ k h. ground arith)),
        refl,
        record { tag = refl; state = refl; pend = refl; extra = refl },
      ))
