-- ===== src/Cache/Present.antt =====
-- What `notpres` (MemSys/cache2.c) finds, against the meaning of an address being present.
use rsim.Prelude.{
  ℕ, zero, suc, ◌+◌, ◌*◌, ◌/◌, ◌%◌, ◌^◌, ◌≤◌, ◌<◌, ◌≡◌, refl, true, false, Option, none, some,
  arith, Bool-cases, inl, inr, if_elim,
}
use native.Mathlib.Decide.{ℕ_discrete}
use native.Mathlib.Nat.{mod-lt, one-le-pow, mul-le-mul_right}
use rsim.Req.{invalid, is_line}
use rsim.Cache.{Cache, line}
use rsim.Cache.Lookup.{hit, present_miss, total_miss, Found, has_tag, find_line, found, notpres}

-- the set of an address, and its tag
abbrev pub set_of : Cache → ℕ → ℕ
set_of c address = (address / 2 ^ c.block_bits) % 2 ^ c.set_bits

abbrev pub tag_at : Cache → ℕ → ℕ
tag_at c address = address / 2 ^ c.non_tag_bits

-- The line `k` is the first one of those from `lo` on, and before `hi`, with the tag.
pub record IsFirst (c : Cache) (tag lo hi k : ℕ) : Type 0 where
  pub above : lo ≤ k
  pub below : k < hi
  pub holds : has_tag (line c k) tag ≡ true
  pub first : (j : ℕ) → lo ≤ j → j < k → has_tag (line c j) tag ≡ false

find_line-some :
    (c : Cache) (tag n lo k : ℕ) → find_line c tag n lo ≡ some k → IsFirst c tag lo (lo + n) k
unfolding find_line
find_line-some c tag zero lo k h = cc
find_line-some c tag (suc n) lo k h = elim (Bool-cases (has_tag (line c lo) tag)) [
  | inl y ↦
      let e : some lo ≡ some k = rw y at h in
      let e' : lo ≡ k = cc in
      record {
        above = omega (arith, e');
        below = omega (arith, e');
        holds = rw (← e') y;
        first = λ j a b. absurd (omega (arith, a, b, e'));
      }
  | inr ne ↦
      let r = find_line-some c tag n (lo + 1) k (rw ne at h) in
      record {
        above = omega (arith, r.above);
        below = omega (arith, r.below);
        holds = r.holds;
        first = λ j a b. elim (ℕ_discrete lo j) [
          | yes e ↦ rw (← e) ne
          | no d ↦ r.first j (omega (arith, a, d)) b
        ];
      }
]

find_line-none :
    (c : Cache) (tag n lo : ℕ)
    → find_line c tag n lo ≡ none
    → (j : ℕ) → lo ≤ j
    → j < lo + n
    → has_tag (line c j) tag ≡ false
unfolding find_line
find_line-none c tag zero lo h j a b = absurd (omega arith)
find_line-none c tag (suc n) lo h j a b = elim (Bool-cases (has_tag (line c lo) tag)) [
  | inl y ↦ let e : some lo ≡ none = rw y at h in cc
  | inr ne ↦ elim (ℕ_discrete lo j) [
    | yes e ↦ rw (← e) ne
    | no d ↦ find_line-none c tag n (lo + 1) (rw ne at h) j (omega arith) (omega arith)
  ]
]

-- What a result of `notpres` says of the lines of the set.
pub data Finds (c : Cache) (address : ℕ) : Found → Type 0 where
  finds_valid :
      (k : ℕ)
      → IsFirst c
          (tag_at c address)
          (set_of c address * c.setsz)
          (set_of c address * c.setsz + c.setsz)
          k
      → is_line (line c k).st invalid ≡ false
      → Finds c address
          (record { presence = hit; tag = tag_at c address; set = set_of c address; set_ind = k })
  finds_invalid :
      (k : ℕ)
      → IsFirst c
          (tag_at c address)
          (set_of c address * c.setsz)
          (set_of c address * c.setsz + c.setsz)
          k
      → is_line (line c k).st invalid ≡ true
      → Finds c address (record {
        presence = present_miss;
        tag = tag_at c address;
        set = set_of c address;
        set_ind = k;
      })
  finds_none :
      ((j : ℕ)
        → set_of c address * c.setsz ≤ j
        → j < set_of c address * c.setsz + c.setsz
        → has_tag (line c j) (tag_at c address) ≡ false)
      → Finds c address (record {
        presence = total_miss;
        tag = tag_at c address;
        set = set_of c address;
        set_ind = set_of c address * c.setsz;
      })

found-Finds :
    (address : ℕ) (c : Cache) (o : Option ℕ)
    → find_line c (tag_at c address) c.setsz (set_of c address * c.setsz) ≡ o
    → Finds c address (found c (tag_at c address) (set_of c address) o)
unfolding found
found-Finds address c none e = finds_none (find_line-none c (tag_at c address) c.setsz _ e)
found-Finds address c (some k) e =
    let r = find_line-some c (tag_at c address) c.setsz (set_of c address * c.setsz) k e in
    if_elim
      (λ p.
        Finds c address
          (record { presence = p; tag = tag_at c address; set = set_of c address; set_ind = k }))
      (is_line (line c k).st invalid) (finds_invalid k r) (finds_valid k r)

-- `notpres` searches the set of the address, and no other: it reports the first line there with the
-- tag of the address, as a hit if the line is valid and as a present miss if it is INVALID, and a
-- total miss, with the first line of the set, if no line of the set has the tag.
pub notpres-Finds : (address : ℕ) (c : Cache) → Finds c address (notpres address c)
unfolding notpres
notpres-Finds address c = found-Finds address c _ refl

-- the set lies within the cache
set_of-bounds :
    (c : Cache) (address : ℕ)
    → c.num_lines ≡ 2 ^ c.set_bits * c.setsz
    → set_of c address * c.setsz + c.setsz ≤ c.num_lines
set_of-bounds c address size =
    let lt : set_of c address < 2 ^ c.set_bits =
      mod-lt (address / 2 ^ c.block_bits) (one-le-pow c.set_bits 2 (omega arith)) in
    let le : suc (set_of c address) * c.setsz ≤ 2 ^ c.set_bits * c.setsz =
      mul-le-mul_right c.setsz lt in
    omega (arith, le, size)

Finds-bounds :
    (c : Cache) (address : ℕ) (f : Found)
    → set_of c address * c.setsz + c.setsz ≤ c.num_lines
    → 0 < c.setsz
    → Finds c address f
    → f.set_ind < c.num_lines
Finds-bounds c address f b pos (finds_valid k r e) = omega (arith, b, r.below)
Finds-bounds c address f b pos (finds_invalid k r e) = omega (arith, b, r.below)
Finds-bounds c address f b pos (finds_none h) = omega (arith, b, pos)

-- The index that `notpres` gives is one of a line: in a cache of 2 ^ set_bits sets of `setsz` lines,
-- at least one, it is below the number of lines, on a miss too.
pub notpres-bounds :
    (address : ℕ) (c : Cache)
    → c.num_lines ≡ 2 ^ c.set_bits * c.setsz
    → 0 < c.setsz
    → (notpres address c).set_ind < c.num_lines
notpres-bounds address c size pos =
    Finds-bounds c address _ (set_of-bounds c address size) pos (notpres-Finds address c)
