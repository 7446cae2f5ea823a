-- ===== src/Cache/Choice.antt =====
-- The choice among the candidates of `miss_ageupdate` (MemSys/cache2.c): an oldest usable line of the
-- best kind.
use rsim.Prelude.{
  ℕ, zero, suc, ◌+◌, ◌≤◌, ◌<◌, ◌≡◌, ◌≢◌, ◌⊎◌, inl, inr, refl, ap, ◌∙◌, sym, Bool, true, false, ◌&&◌,
  Option, none, some, ltb, ◌==◌, if◌then◌else◌, arith, Bool-cases, Option-cases, if_elim, lt_of_ltb,
  le_of_ltb, ne_of_==,
}
use mathlib.Core.Path.{subst}
use native.Mathlib.Decide.{ℕ_discrete}
use rsim.Req.{bad_line_state}
use rsim.Cache.{Line, Cache, CacheLevel}
use rsim.Cache.Victim.{
  entry, usable, Pick, pick_inv, pick_clean, pick_private, pick_dirty, pick_code, Candidate,
  pick_of, Bests, consider, best_of, choose,
}
use rsim.Cache.Scan.{pick_line, scan_one, scan_pure, pick_of-known}

-- two kinds are the same or have different numbers
pub Pick-cases : (p q : Pick) → (p ≡ q) ⊎ ((pick_code p == pick_code q) ≡ false)
Pick-cases pick_inv pick_inv = inl refl
Pick-cases pick_inv pick_clean = inr refl
Pick-cases pick_inv pick_private = inr refl
Pick-cases pick_inv pick_dirty = inr refl
Pick-cases pick_clean pick_inv = inr refl
Pick-cases pick_clean pick_clean = inl refl
Pick-cases pick_clean pick_private = inr refl
Pick-cases pick_clean pick_dirty = inr refl
Pick-cases pick_private pick_inv = inr refl
Pick-cases pick_private pick_clean = inr refl
Pick-cases pick_private pick_private = inl refl
Pick-cases pick_private pick_dirty = inr refl
Pick-cases pick_dirty pick_inv = inr refl
Pick-cases pick_dirty pick_clean = inr refl
Pick-cases pick_dirty pick_private = inr refl
Pick-cases pick_dirty pick_dirty = inl refl

consider-same :
    (b : Bests) (p : Pick) (i age : ℕ)
    → consider b p i age p
      ≡ (if ltb (b p).best_age age then record { best = some i; best_age = age } else b p)
unfolding consider
consider-same b pick_inv i age = refl
consider-same b pick_clean i age = refl
consider-same b pick_private i age = refl
consider-same b pick_dirty i age = refl

consider-other :
    (b : Bests) (p q : Pick) (i age : ℕ)
    → (pick_code p == pick_code q) ≡ false
    → consider b q i age p ≡ b p
unfolding consider
consider-other b p q i age h =
    ap
      (λ (t : Bool).
        if t && ltb (b p).best_age age then record { best = some i; best_age = age } else b p)
      h

one_more : (P : ℕ → Type 0) (i : ℕ) → ((j : ℕ) → j < i → P j) → P i → (j : ℕ) → j < i + 1 → P j
one_more P i f x j h = elim (ℕ_discrete j i) [
  | yes e ↦ subst P (sym e) x
  | no ne ↦ f j (omega arith)
]

unfoldable pub kind_code : Option Pick → ℕ
kind_code none = 4
kind_code (some p) = pick_code p

one_pick :
    (o : Option Pick) (p q : Pick) → o ≡ some p → o ≡ some q → (pick_code p == pick_code q) ≢ false
unfolding kind_code
one_pick o p q e f other =
    let w : pick_code p ≡ pick_code q = ap kind_code (sym e ∙ f) in ne_of_== _ _ other w

both : {b : Bool} → b ≡ true → b ≢ false
both {b} e f = cc

scan_one-usable :
    (level : CacheLevel) (l : Line) (b : Bests) (i : ℕ) (q : Pick)
    → usable level l ≡ true
    → pick_of l.st ≡ some q
    → scan_one level l b i ≡ consider b q i l.age
unfolding scan_one pick_line
scan_one-usable level l b i q u e =
    ap (λ (t : Bool). if t then pick_line (pick_of l.st) b i l.age else b) u
    ∙ ap (λ (o : Option Pick). pick_line o b i l.age) e

scan_one-skipped :
    (level : CacheLevel) (l : Line) (b : Bests) (i : ℕ)
    → usable level l ≡ false
    → scan_one level l b i ≡ b
unfolding scan_one
scan_one-skipped level l b i u =
    ap (λ (t : Bool). if t then pick_line (pick_of l.st) b i l.age else b) u

last_pick : (p : Pick) → pick_code p ≤ 3
last_pick pick_inv = omega arith
last_pick pick_clean = omega arith
last_pick pick_private = omega arith
last_pick pick_dirty = omega arith

module _ (c : Cache) (temp : ℕ) where
  -- the line of the set may be replaced and is of a kind
  abbrev pub IsPick : (k : ℕ) → Pick → Type 0
  IsPick k p =
      (usable c.level (entry c (temp + k)) ≡ true) × (pick_of (entry c (temp + k)).st ≡ some p)

  abbrev pub Nothing : Candidate → Type 0
  Nothing x = (x.best ≡ none) × (x.best_age ≡ 0)

  abbrev pub Something : (i : ℕ) → Pick → Candidate → Type 0
  Something i p x =
      (k : ℕ) × (x.best ≡ some k) × (k < i) × IsPick k p × ((entry c (temp + k)).age ≡ x.best_age)

  -- The candidate is an oldest one of its kind among the first i lines, or there is none older than 0.
  abbrev pub IsBest : (i : ℕ) → Pick → Candidate → Type 0
  IsBest i p x =
      (Nothing x ⊎ Something i p x)
      × ((j : ℕ) → j < i → IsPick j p → (entry c (temp + j)).age ≤ x.best_age)

  longer :
      (i : ℕ) (p : Pick) (x : Candidate)
      → Nothing x ⊎ Something i p x
      → Nothing x ⊎ Something (i + 1) p x
  longer i p x (inl h) = inl h
  longer i p x (inr (k, e, lt, pick, age)) = inr (k, e, omega arith, pick, age)

  -- no line of the kind p among the first i is older than n
  abbrev AtMost : Pick → ℕ → ℕ → Type 0
  AtMost p n j = IsPick j p → (entry c (temp + j)).age ≤ n

  IsBest-keep :
      (i : ℕ) (p : Pick) (x : Candidate) → AtMost p x.best_age i → IsBest i p x → IsBest (i + 1) p x
  IsBest-keep i p x new (some_or_none, old) =
      (longer i p x some_or_none, one_more (AtMost p x.best_age) i old new)

  IsBest-take :
      (i : ℕ) (p : Pick) (x : Candidate)
      → IsPick i p
      → x.best_age < (entry c (temp + i)).age
      → IsBest i p x
      → IsBest (i + 1) p (record { best = some i; best_age = (entry c (temp + i)).age })
  IsBest-take i p x pick lt (some_or_none, old) = (
    inr (i, refl, omega arith, pick, refl),
    one_more (AtMost p (entry c (temp + i)).age) i
        (λ j h pick'. let w = old j h pick' in omega arith) (λ pick'. omega arith),
  )

  -- every candidate is a best one of its kind
  abbrev pub AllBest : (i : ℕ) → Bests → Type 0
  AllBest i b = (p : Pick) → IsBest i p (b p)

  consider-IsBest :
      (i : ℕ) (b : Bests) (p : Pick)
      → IsPick i p
      → IsBest i p (b p)
      → IsBest (i + 1) p (consider b p i (entry c (temp + i)).age p)
  consider-IsBest i b p pick best =
      let age : ℕ = (entry c (temp + i)).age in
      subst (λ (x : Candidate). IsBest (i + 1) p x) (sym (consider-same b p i age))
        (if_elim (λ (x : Candidate). IsBest (i + 1) p x) (ltb (b p).best_age age)
          (λ lt. IsBest-take i p (b p) pick (lt_of_ltb _ _ lt) best)
          (λ ge. IsBest-keep i p (b p) (λ pick'. le_of_ltb _ _ ge) best))

  pick_line-AllBest :
      (i : ℕ) (b : Bests) (q : Pick)
      → IsPick i q
      → AllBest i b
      → AllBest (i + 1) (consider b q i (entry c (temp + i)).age)
  pick_line-AllBest i b q pick all p =
      let age : ℕ = (entry c (temp + i)).age in
      elim (Pick-cases p q) [
        | inl same ↦
            subst (λ (r : Pick). IsBest (i + 1) p (consider b r i age p)) same
              (consider-IsBest i b p (subst (λ (r : Pick). IsPick i r) (sym same) pick) (all p))
        | inr other ↦
            subst (λ (x : Candidate). IsBest (i + 1) p x) (sym (consider-other b p q i age other))
              (IsBest-keep i p (b p) (λ pick'. absurd (one_pick _ p q (pick'.1) (pick.1) other))
                (all p))
      ]

  scan_one-AllBest :
      (i : ℕ) (b : Bests)
      → (entry c (temp + i)).st ≢ bad_line_state
      → AllBest i b
      → AllBest (i + 1) (scan_one c.level (entry c (temp + i)) b i)
  scan_one-AllBest i b known all =
      let l : Line = entry c (temp + i) in
      elim (Bool-cases (usable c.level l)) [
        | inl yes_usable ↦ elim (Option-cases (pick_of l.st)) [
          | inl unknown ↦ absurd (pick_of-known l.st known unknown)
          | inr (q, e) ↦
              subst (λ (x : Bests). AllBest (i + 1) x)
                (sym (scan_one-usable c.level l b i q yes_usable e))
                (pick_line-AllBest i b q (yes_usable, e) all)
        ]
        | inr not_usable ↦
            subst (λ (x : Bests). AllBest (i + 1) x)
              (sym (scan_one-skipped c.level l b i not_usable))
              (λ p. IsBest-keep i p (b p) (λ pick. absurd (both (pick.0) not_usable)) (all p))
      ]

  pub scan_pure-AllBest :
      (n i : ℕ) (b : Bests)
      → ((j : ℕ) → j < i + n → (entry c (temp + j)).st ≢ bad_line_state)
      → AllBest i b
      → AllBest (i + n) (scan_pure c temp n i b)
  unfolding scan_pure
  scan_pure-AllBest zero i b known all =
      let same : ◌≡◌ {A = ℕ} i (i + 0) = omega arith in subst (λ (m : ℕ). AllBest m b) same all
  scan_pure-AllBest (suc n) i b known all =
      let same : ◌≡◌ {A = ℕ} (i + 1 + n) (i + suc n) = omega arith in
      subst (λ (m : ℕ). AllBest m (scan_pure c temp (suc n) i b)) same
        (scan_pure-AllBest n (i + 1) _ (λ j h. known j (omega arith))
          (scan_one-AllBest i b (known i (omega arith)) all))

  -- A choice of a line v below n, of a kind before p or of the kind p and no younger than line j.
  abbrev pub Chosen : (n j : ℕ) → Pick → Option (ℕ × ℕ) → Type 0
  Chosen n j p o =
      (v : ℕ) × (q : Pick) × (o ≡ some (v, (entry c (temp + v)).age))
      × (v < n)
      × IsPick v q
      × ((pick_code q < pick_code p)
          ⊎ ((q ≡ p) × ((entry c (temp + j)).age ≤ (entry c (temp + v)).age)))

  module _ (n : ℕ) (b : Bests) (j : ℕ) (p : Pick) (all : AllBest n b) (lt : j < n)
      (pick : IsPick j p) (old : 0 < (entry c (temp + j)).age) where
    oldest : (r : Pick) → r ≡ p → (entry c (temp + j)).age ≤ (b r).best_age
    oldest r same =
        subst (λ (x : Pick). (entry c (temp + j)).age ≤ (b x).best_age) (sym same)
          ((all p).1 j lt pick)

    some-Chosen :
        (r : Pick) (rest : Option (ℕ × ℕ))
        → pick_code r ≤ pick_code p
        → Something n r (b r)
        → Chosen n j p (best_of (b r).best (b r).best_age rest)
    unfolding best_of
    some-Chosen r rest le (k, e, h, is, age) =
        let eq =
          ap (λ (o : Option ℕ). best_of o (b r).best_age rest) e
          ∙ ap (λ (a : ℕ). some (k, a)) (sym age) in
        (
          k,
          r,
          eq,
          h,
          is,
          elim (Pick-cases r p) [
            | inl same ↦ let w = oldest r same in inr (same, omega arith)
            | inr other ↦ inl (ground arith)
          ],
        )

    found-Chosen :
        (r : Pick) (rest : Option (ℕ × ℕ))
        → pick_code r ≤ pick_code p
        → (pick_code r < pick_code p → Chosen n j p rest)
        → Chosen n j p (best_of (b r).best (b r).best_age rest)
    unfolding best_of
    found-Chosen r rest le later = elim ((all r).0) [
      | inr something ↦ some-Chosen r rest le something
      | inl nothing ↦ elim (Pick-cases r p) [
        | inl same ↦ let w = oldest r same in let z = nothing.1 in absurd (omega arith)
        | inr other ↦
            subst (λ (o : Option (ℕ × ℕ)). Chosen n j p o)
              (sym (ap (λ (o : Option ℕ). best_of o (b r).best_age rest) (nothing.0)))
              (later (ground arith))
      ]
    ]

    pub choose-Chosen : Chosen n j p (choose b)
    unfolding choose
    choose-Chosen = found-Chosen pick_inv _ (omega arith) (λ h0.
        found-Chosen pick_clean _ (omega arith) (λ h1.
          found-Chosen pick_private _ (omega arith) (λ h2.
            found-Chosen pick_dirty _ (omega arith) (λ h3. absurd (omega (arith, last_pick p))))))
