-- ===== src/Cache/Scan.antt =====
-- The first loop of `miss_ageupdate` (MemSys/cache2.c) as a scan of the lines that the set has before it.
use rsim.Prelude.{
  ℕ, zero, suc, ◌+◌, ◌<◌, ◌≡◌, ◌≢◌, refl, ap, ◌∙◌, sym, Bool, true, false, Option, none, some, ◌==◌,
  if◌then◌else◌, arith, if_elim,
}
use mathlib.Core.Path.{subst}
use native.Mathlib.Decide.{ℕ_discrete}
use rsim.Prelude.Result.{Result, ok, ◌>>=◌}
use rsim.Req.{CacheLineState, bad_line_state, invalid, pr_cl, sh_cl, pr_dy, sh_dy}
use rsim.Cache.{Line, Cache, CacheLevel}
use rsim.Cache.Victim.{
  entry, set_entry, usable, is_tag, damage, count_damaging, Pick, pick_inv, pick_clean,
  pick_private, pick_dirty, pick_of, Bests, consider, scan_line, scan_set,
}

-- a line less what a damaging prefetch changes
abbrev pub strip : Line → Line
strip l = record l { pref_tag_repl = none }

-- What the choice reads is the same in two caches.
abbrev pub SameView : Cache → Cache → Type 0
SameView c d = (c.level ≡ d.level) × ((j : ℕ) → strip (entry c j) ≡ strip (entry d j))

entry-set_entry :
    (c : Cache) (k j : ℕ) (l : Line) → entry (set_entry c k l) j ≡ (if j == k then l else entry c j)
entry-set_entry c k j l = elim (ℕ_discrete j k) [ yes e ↦ ground arith | no ne ↦ ground arith ]

cleared-strip :
    (c : Cache) (k j : ℕ) → strip (entry (set_entry c k (strip (entry c k))) j) ≡ strip (entry c j)
cleared-strip c k j =
    ap strip (entry-set_entry c k j (strip (entry c k)))
    ∙ elim (ℕ_discrete j k) [ yes e ↦ ground arith | no ne ↦ ground arith ]

damage-strip :
    (c : Cache) (k reqtag j : ℕ) → strip (entry (damage c k reqtag) j) ≡ strip (entry c j)
unfolding damage count_damaging
damage-strip c k reqtag j =
    if_elim (λ (d : Cache). strip (entry d j) ≡ strip (entry c j))
      (is_tag (entry c k).pref_tag_repl reqtag) (λ e. cleared-strip c k j) (λ e. refl)

damage-level : (c : Cache) (k reqtag : ℕ) → (damage c k reqtag).level ≡ c.level
unfolding damage count_damaging
damage-level c k reqtag = ground arith

damage-SameView : (c d : Cache) (k reqtag : ℕ) → SameView c d → SameView (damage c k reqtag) d
damage-SameView c d k reqtag (level, lines) =
    (damage-level c k reqtag ∙ level, λ j. damage-strip c k reqtag j ∙ lines j)

-- The pure scan: what the first loop makes of the lines of the set at its start.
unfoldable pub pick_line : Option Pick → Bests → (i age : ℕ) → Bests
pick_line none b i age = b
pick_line (some p) b i age = consider b p i age

unfoldable pub scan_one : CacheLevel → Line → Bests → ℕ → Bests
scan_one level l b i = if usable level l then pick_line (pick_of l.st) b i l.age else b

unfoldable pub scan_pure : Cache → (temp : ℕ) → ℕ → (i : ℕ) → Bests → Bests
scan_pure c temp zero i b = b
scan_pure c temp (suc n) i b =
    scan_pure c temp n (i + 1) (scan_one c.level (entry c (temp + i)) b i)

-- the test and the switch of one round, of the line as the round reads it
scan_round : (reqtag : ℕ) → CacheLevel → Line → Cache → Bests → (k i : ℕ) → Result (Cache × Bests)
scan_round reqtag level l c b k i =
    if usable level l then scan_line (pick_of l.st) c b k i l.age reqtag else ok (c, b)

-- what a round leaves
abbrev pub Rounds : Cache → Bests → Result (Cache × Bests) → Type 0
Rounds d b r = (c : Cache) × (r ≡ ok (c, b)) × SameView c d

scan_line-Rounds :
    (o : Option Pick) (c d : Cache) (b : Bests) (k i age reqtag : ℕ)
    → o ≢ none
    → SameView c d
    → Rounds d (pick_line o b i age) (scan_line o c b k i age reqtag)
unfolding scan_line pick_line
scan_line-Rounds none c d b k i age reqtag h same = absurd (h refl)
scan_line-Rounds (some pick_inv) c d b k i age reqtag h same = (c, refl, same)
scan_line-Rounds (some pick_clean) c d b k i age reqtag h same =
    (damage c k reqtag, refl, damage-SameView c d k reqtag same)
scan_line-Rounds (some pick_private) c d b k i age reqtag h same =
    (damage c k reqtag, refl, damage-SameView c d k reqtag same)
scan_line-Rounds (some pick_dirty) c d b k i age reqtag h same =
    (damage c k reqtag, refl, damage-SameView c d k reqtag same)

pub pick_of-known : (st : CacheLineState) → st ≢ bad_line_state → pick_of st ≢ none
pick_of-known bad_line_state h = λ e. h refl
pick_of-known invalid h = λ e. cc
pick_of-known pr_cl h = λ e. cc
pick_of-known sh_cl h = λ e. cc
pick_of-known pr_dy h = λ e. cc
pick_of-known sh_dy h = λ e. cc

test-Rounds :
    (t : Bool) (c d : Cache) (b x : Bests) (r : Result (Cache × Bests))
    → SameView c d
    → Rounds d x r
    → Rounds d (if t then x else b) (if t then r else ok (c, b))
test-Rounds true c d b x r same h = h
test-Rounds false c d b x r same h = (c, refl, same)

scan_round-Rounds :
    (reqtag : ℕ) (level : CacheLevel) (l : Line) (c d : Cache) (b : Bests) (k i : ℕ)
    → l.st ≢ bad_line_state
    → SameView c d
    → Rounds d (scan_one level l b i) (scan_round reqtag level l c b k i)
unfolding scan_round scan_one
scan_round-Rounds reqtag level l c d b k i h same =
    test-Rounds (usable level l) c d b _ _ same
      (scan_line-Rounds (pick_of l.st) c d b k i l.age reqtag (pick_of-known l.st h) same)

bind-Rounds :
    (d : Cache) (b1 b2 : Bests) (r : Result (Cache × Bests))
    (f : Cache × Bests → Result (Cache × Bests))
    → Rounds d b1 r
    → ((c : Cache) → SameView c d → Rounds d b2 (f (c, b1)))
    → Rounds d b2 (r >>= f)
bind-Rounds d b1 b2 r f (c, e, same) k =
    let rest = k c same in (rest.0, ap (λ (m : Result (Cache × Bests)). m >>= f) e ∙ rest.1, rest.2)

scan_one-view :
    (c d : Cache) (k i : ℕ) (b : Bests)
    → SameView c d
    → scan_one c.level (entry c k) b i ≡ scan_one d.level (entry d k) b i
unfolding scan_one
scan_one-view c d k i b (level, lines) =
    ap (λ (lv : CacheLevel). scan_one lv (entry c k) b i) level
    ∙ ap (λ (l : Line). scan_one d.level l b i) (lines k)

pub scan_set-Rounds :
    (temp reqtag n i : ℕ) (c d : Cache) (b : Bests)
    → ((j : ℕ) → j < i + n → (entry d (temp + j)).st ≢ bad_line_state)
    → SameView c d
    → Rounds d (scan_pure d temp n i b) (scan_set temp reqtag n i (c, b))
unfolding scan_set scan_pure scan_round
scan_set-Rounds temp reqtag zero i c d b known same = (c, refl, same)
scan_set-Rounds temp reqtag (suc n) i c d b known same =
    let st_eq = ap (λ (l : Line). l.st) (same.1 (temp + i)) in
    let one =
      scan_round-Rounds reqtag c.level (entry c (temp + i)) c d b (temp + i) i
        (λ e. known i (omega arith) (sym st_eq ∙ e)) same in
    bind-Rounds d _ _ _ (scan_set temp reqtag n (i + 1))
      (subst
        (λ (x : Bests).
          Rounds d x (scan_round reqtag c.level (entry c (temp + i)) c b (temp + i) i))
        (scan_one-view c d (temp + i) i b same) one)
      (λ c1 same1.
        scan_set-Rounds temp reqtag n (i + 1) c1 d _ (λ j h. known j (omega arith)) same1)
