-- ===== src/Cache/Fill.antt =====
-- The ages that `premiss_ageupdate` (MemSys/cache2.c) leaves, in a cache of any size.
use rsim.Prelude.{
  ℕ, zero, suc, ◌+◌, ◌*◌, ◌/◌, ◌≤◌, ◌<◌, ◌≡◌, ◌≢◌, ◌∙◌, ap, Bool, true, false, ◌&&◌, arith,
  if◌then◌else◌, Bool-cases, inl, inr, ◌==◌, ltb, leb,
}
use native.Mathlib.Decide.{ℕ_discrete}
use rsim.Cache.{Req, Line, Cache, is_small, line, set_line}
use rsim.Cache.Lru.{keeps_ages, fill, premiss_step, premiss_loop, premiss_ageupdate}
use rsim.Cache.Ages.{aged, line-set_line, line-set_line-large}

line-set_line-any :
    (c : Cache) (k j : ℕ) (l : Line) → line (set_line c k l) j ≡ (if j == k then l else line c j)
line-set_line-any c k j l = elim (Bool-cases (is_small c)) [
  | inl y ↦ line-set_line c k j l y
  | inr n ↦ elim (ℕ_discrete j k) [
    | yes e ↦ ground arith
    | no ne ↦ let w = line-set_line-large c k j l n ne in ground arith
  ]
]

module _ (index tage : ℕ) (req : Req) (b : Bool) where
  step-age :
      (c : Cache) (t j : ℕ)
      → (line (premiss_step index tage req b c t) j).age
        ≡ (if j == t then aged index tage t (line c t).age else (line c j).age)
  unfolding premiss_step fill
  step-age c t j =
      let w : (l : Line) → line (set_line c t l) j ≡ (if j == t then l else line c j) =
        line-set_line-any c t j in
      ground arith

  loop-age :
      (n : ℕ) (c : Cache) (t j : ℕ)
      → (line (premiss_loop index tage req b n c t) j).age
        ≡ (if leb t j && ltb j (t + n) then aged index tage j (line c j).age else (line c j).age)
  unfolding premiss_loop
  loop-age zero c t j = grind arith
  loop-age (suc n) c t j =
      let rest = loop-age n (premiss_step index tage req b c t) (t + 1) j in
      let one = step-age c t j in
      elim (ℕ_discrete j t) [ yes e ↦ ground arith | no ne ↦ ground arith ]

fill-age :
    (c : Cache) (k : ℕ) (req : Req) (b : Bool) (j : ℕ)
    → keeps_ages c ≡ true
    → (line (premiss_ageupdate c k req b) j).age ≡ (
        if leb ((k / c.setsz) * c.setsz) j && ltb j ((k / c.setsz) * c.setsz + c.setsz)
        then aged k (line c k).age j (line c j).age
        else (line c j).age)
unfolding premiss_ageupdate
fill-age c k req b j kept =
    ap
      (λ x.
        (line
          (if x then premiss_loop k (line c k).age req b c.setsz c ((k / c.setsz) * c.setsz) else c)
          j).age)
      kept
    ∙ loop-age k (line c k).age req b c.setsz c ((k / c.setsz) * c.setsz) j

-- the line stands in the same set as the line `k`
abbrev pub InSetOf : Cache → (k j : ℕ) → Type 0
InSetOf c k j = ((k / c.setsz) * c.setsz ≤ j) × (j < (k / c.setsz) * c.setsz + c.setsz)

module _ (c : Cache) (k : ℕ) (req : Req) (b : Bool) (kept : keeps_ages c ≡ true) where
  filled-age : InSetOf c k k → 0 < (line c k).age → (line (premiss_ageupdate c k req b) k).age ≡ 1
  filled-age hk pk = let ak = fill-age c k req b k kept in ground arith

  other-age :
      (i : ℕ)
      → InSetOf c k i
      → i ≢ k
      → (line (premiss_ageupdate c k req b) i).age
        ≡ (if ltb (line c i).age (line c k).age then (line c i).age + 1 else (line c i).age)
  other-age i hi ik = let ai = fill-age c k req b i kept in ground arith

-- In a cache of any size that keeps ages, `premiss_ageupdate` is a move to the front of the set of the
-- line filled: that line gets age 1, and a line i of the set is younger afterwards than a line j of it
-- exactly if i is the line filled and j is not, or neither is and i was younger before. It supposes
-- that these lines have ages above 0, and that i and j are not as old as the line filled unless they
-- are that line.
pub premiss_ageupdate-order :
    (c : Cache) (k : ℕ) (req : Req) (b : Bool) (i j : ℕ)
    → keeps_ages c ≡ true
    → InSetOf c k k
    → InSetOf c k i
    → InSetOf c k j
    → (i ≢ k → (line c i).age ≢ (line c k).age)
    → (j ≢ k → (line c j).age ≢ (line c k).age)
    → 0 < (line c i).age
    → 0 < (line c j).age
    → 0 < (line c k).age
    → ((line (premiss_ageupdate c k req b) k).age ≡ 1)
      × (ltb (line (premiss_ageupdate c k req b) i).age (line (premiss_ageupdate c k req b) j).age
          ≡ (if j == k then false else if i == k then true else ltb (line c i).age (line c j).age))
premiss_ageupdate-order c k req b i j kept hk hi hj di dj pi pj pk =
    let one = filled-age c k req b kept hk pk in
    (
      one,
      elim (ℕ_discrete i k) [
        | yes ik ↦ elim (ℕ_discrete j k) [
          | yes jk ↦
              let a = ap (λ n. (line (premiss_ageupdate c k req b) n).age) jk ∙ one in ground arith
          | no jk ↦
              let a = ap (λ n. (line (premiss_ageupdate c k req b) n).age) ik ∙ one in
              let nj = other-age c k req b kept j hj jk in ground arith
        ]
        | no ik ↦ elim (ℕ_discrete j k) [
          | yes jk ↦
              let a = ap (λ n. (line (premiss_ageupdate c k req b) n).age) jk ∙ one in
              let ni = other-age c k req b kept i hi ik in ground arith
          | no jk ↦
              let ni = other-age c k req b kept i hi ik in
              let nj = other-age c k req b kept j hj jk in ground (arith, di ik, dj jk)
        ]
      ],
    )
