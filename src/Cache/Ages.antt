-- ===== src/Cache/Ages.antt =====
-- The ages that `hit_update` (MemSys/cache2.c) leaves, in the two kinds of cache.
use rsim.Prelude.{
  ℕ, zero, suc, ◌+◌, ◌*◌, ◌≤◌, ◌<◌, ◌≡◌, refl, ◌≢◌, ◌∙◌, ap, true, false, not, ◌&&◌, arith,
  if◌then◌else◌, ◌⊎◌, if_elim, ◌==◌, ltb, leb,
}
use native.Mathlib.Decide.{ℕ_discrete}
use rsim.Cache.{Req, Line, Cache, is_small, line, set_line}
use rsim.Cache.Lru.{loop_start, keeps_ages, touch, hit_step, hit_loop, hit_update}

-- the age that the loop gives the line `t` of age `a`
abbrev pub aged : (index tage t a : ℕ) → ℕ
aged index tage t a = if ltb a tage then a + 1 else if t == index then 1 else a

pub line-set_line :
    (c : Cache) (k j : ℕ) (l : Line)
    → is_small c ≡ true
    → line (set_line c k l) j ≡ (if j == k then l else line c j)
line-set_line c k j l small = grind (arith, small)

module _ (index tage : ℕ) (req : Req) where
  step-small : (c : Cache) (t : ℕ) → is_small (hit_step index tage req c t) ≡ is_small c
  unfolding hit_step touch
  step-small c t = ground arith

  step-age :
      (c : Cache) (t j : ℕ)
      → is_small c ≡ true
      → (line (hit_step index tage req c t) j).age
        ≡ (if j == t then aged index tage t (line c t).age else (line c j).age)
  unfolding hit_step touch
  step-age c t j small = grind (arith, small)

  loop-age :
      (n : ℕ) (c : Cache) (t j : ℕ)
      → is_small c ≡ true
      → (line (hit_loop index tage req n c t) j).age
        ≡ (if leb t j && ltb j (t + n) then aged index tage j (line c j).age else (line c j).age)
  unfolding hit_loop
  loop-age zero c t j small = grind arith
  loop-age (suc n) c t j small =
      let rest = loop-age n (hit_step index tage req c t) (t + 1) j (step-small c t ∙ small) in
      let one = step-age c t j small in
      elim (ℕ_discrete j t) [ yes e ↦ ground arith | no ne ↦ ground arith ]

-- In another array, or in another place of the same one, a line stays as it is.
pub line-set_line-large :
    (c : Cache) (k j : ℕ) (l : Line)
    → is_small c ≡ false
    → j ≢ k
    → line (set_line c k l) j ≡ line c j
line-set_line-large c k j l large ne = ground arith

-- where the loop of `hit_update` starts
start-small : (c : Cache) (set : ℕ) → is_small c ≡ true → loop_start c set ≡ set * c.setsz
start-small c set small = ap (λ b. if b then set * c.setsz else set) small

start-large : (c : Cache) (set : ℕ) → is_small c ≡ false → loop_start c set ≡ set
start-large c set large = ap (λ b. if b then set * c.setsz else set) large

hit_update-loop :
    (index : ℕ) (c : Cache) (set : ℕ) (req : Req)
    → keeps_ages c ≡ true
    → hit_update index c set req
      ≡ hit_loop index (line c index).age req c.setsz c (loop_start c set)
unfolding hit_update
hit_update-loop index c set req kept =
    ap (λ b. if b then hit_loop index (line c index).age req c.setsz c (loop_start c set) else c)
      kept

module _ (index : ℕ) (c : Cache) (set : ℕ) (req : Req) (kept : keeps_ages c ≡ true)
    (small : is_small c ≡ true) where
  update-age :
      (j : ℕ)
      → (line (hit_update index c set req) j).age ≡ (
          if leb (set * c.setsz) j && ltb j (set * c.setsz + c.setsz)
          then aged index (line c index).age j (line c j).age
          else (line c j).age)
  update-age j =
      ap (λ (d : Cache). (line d j).age)
        (hit_update-loop index c set req kept
          ∙ ap (hit_loop index (line c index).age req c.setsz c) (start-small c set small))
      ∙ loop-age index (line c index).age req c.setsz c (set * c.setsz) j small

-- the line stands in the set
abbrev pub InSet : Cache → (set k : ℕ) → Type 0
InSet c set k = (set * c.setsz ≤ k) × (k < set * c.setsz + c.setsz)

-- In a small cache with LRU replacement `hit_update` is a move to the front: the line hit gets age 1,
-- every other line of the set is older than that, and of two other lines the younger one stays the
-- younger. It supposes that the
-- line hit is as old as neither of them, and that ages are not 0.
pub hit_update-order :
    (index : ℕ) (c : Cache) (set : ℕ) (req : Req) (j k : ℕ)
    → keeps_ages c ≡ true
    → is_small c ≡ true
    → InSet c set index
    → InSet c set j
    → InSet c set k
    → j ≢ index
    → k ≢ index
    → (line c j).age ≢ (line c index).age
    → (line c k).age ≢ (line c index).age
    → 0 < (line c j).age
    → 0 < (line c index).age
    → (line c j).age < (line c k).age
    → ((line (hit_update index c set req) index).age ≡ 1)
      × (1 < (line (hit_update index c set req) j).age)
      × ((line (hit_update index c set req) j).age < (line (hit_update index c set req) k).age)
hit_update-order index c set req j k kept small hi hj hk ji ki di dk pj pi lt =
    let ai = update-age index c set req kept small index in
    let aj = update-age index c set req kept small j in
    let ak = update-age index c set req kept small k in (ground arith, ground arith, ground arith)

-- In a small cache with LRU replacement `hit_update` leaves the age of every line outside the set.
pub hit_update-outside :
    (index : ℕ) (c : Cache) (set : ℕ) (req : Req) (j : ℕ)
    → keeps_ages c ≡ true
    → is_small c ≡ true
    → (j < set * c.setsz) ⊎ (set * c.setsz + c.setsz ≤ j)
    → (line (hit_update index c set req) j).age ≡ (line c j).age
hit_update-outside index c set req j kept small out =
    let aj = update-age index c set req kept small j in ground arith

module _ (index tage : ℕ) (req : Req) where
  step-large :
      (c : Cache) (t j : ℕ)
      → is_small c ≡ false
      → j ≢ t
      → line (hit_step index tage req c t) j ≡ line c j
  unfolding hit_step touch
  step-large c t j large ne =
      let w : (l : Line) → line (set_line c t l) j ≡ line c j =
        λ l. line-set_line-large c t j l large ne in
      let P = λ (d : Cache). line d j ≡ line c j in
      if_elim P (ltb (line c t).age tage) (λ _. w _)
        (λ _.
          if_elim P (t == index)
            (λ _. if_elim P ((line c t).pref && not req.prefetch) (λ _. w _) (λ _. w _))
            (λ _. refl))

  loop-large :
      (n : ℕ) (c : Cache) (t j : ℕ)
      → is_small c ≡ false
      → t + n ≤ j
      → line (hit_loop index tage req n c t) j ≡ line c j
  unfolding hit_loop
  loop-large zero c t j large le = refl
  loop-large (suc n) c t j large le =
      loop-large n (hit_step index tage req c t) (t + 1) j (step-small index tage req c t ∙ large)
        (omega (arith, le))
      ∙ step-large c t j large (omega (arith, le))

-- In a larger cache `hit_update` runs over the lines from `set` on, and not from the first line of the
-- set: a hit in a line beyond those leaves the line, and its age, as it was.
pub hit_update-misses :
    (index : ℕ) (c : Cache) (set : ℕ) (req : Req)
    → is_small c ≡ false
    → set + c.setsz ≤ index
    → line (hit_update index c set req) index ≡ line c index
unfolding hit_update
hit_update-misses index c set req large far =
    if_elim (λ (d : Cache). line d index ≡ line c index) (keeps_ages c)
      (λ _.
        loop-large index (line c index).age req c.setsz c (loop_start c set) index large
          (rw (start-large c set large) far))
      (λ _. refl)
