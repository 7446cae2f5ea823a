-- ===== src/Cache/Replace.antt =====
-- What `miss_ageupdate` (MemSys/cache2.c) replaces in a finite set-associative cache.
use rsim.Prelude.{
  ℕ, ◌+◌, ◌/◌, ◌^◌, ◌≤◌, ◌<◌, ◌≡◌, ◌≢◌, ◌⊎◌, inl, inr, refl, ap, ◌∙◌, sym, Bool, true, false,
  Option, none, some, arith, ==_ne, if◌then◌else◌, Option-cases,
}
use mathlib.Core.Path.{subst}
use rsim.Prelude.Result.{Result, ok, fatal, ◌>>=◌}
use rsim.Req.{bad_line_state}
use rsim.Cache.{Req, Line, Cache, Replacement, lru, fifo, random}
use rsim.Cache.Victim.{
  entry, usable, Pick, Candidate, pick_inv, pick_clean, pick_private, pick_dirty, pick_code,
  pick_of, Bests, no_bests, best_of, choose, replace, first_invalid, miss_direct, miss_infinite,
  miss_finite, miss_ageupdate, Missed,
}
use rsim.Cache.Scan.{scan_pure, scan_set-Rounds, pick_of-known}
use rsim.Cache.Choice.{Nothing, Something, AllBest, kind_code, scan_pure-AllBest, choose-Chosen}

no_bests-AllBest : (c : Cache) (temp : ℕ) → AllBest c temp 0 no_bests
unfolding no_bests
no_bests-AllBest c temp p = (inl (refl, refl), λ j h pick. absurd (omega arith))

-- the test of the replacement policy
by_policy : Result Missed → Replacement → Result Missed
by_policy r policy = elim policy [ random ↦ fatal | _ ↦ r ]

by_policy-known :
    (r : Result Missed) (policy : Replacement) → policy ≢ random → by_policy r policy ≡ r
unfolding by_policy
by_policy-known r lru h = refl
by_policy-known r fifo h = refl
by_policy-known r random h = absurd (h refl)

miss_ageupdate-finite :
    (fresh : ℕ → Line) (req : Req) (c : Cache) (k : ℕ) (nofetchcoal : Bool)
    → c.setsz ≢ 1
    → c.infinite ≡ false
    → c.replacement ≢ random
    → miss_ageupdate fresh req c k nofetchcoal
      ≡ miss_finite req c k (req.address / 2 ^ c.non_tag_bits) nofetchcoal
unfolding miss_ageupdate by_policy
miss_ageupdate-finite fresh req c k nofetchcoal one fin repl =
    let tag : ℕ = req.address / 2 ^ c.non_tag_bits in
    ap
      (λ (t : Bool).
        if t
        then ok (miss_direct req c k tag nofetchcoal)
        else if c.infinite
        then miss_infinite fresh c (first_invalid c c.setsz k)
        else by_policy (miss_finite req c k tag nofetchcoal) c.replacement)
      (==_ne _ _ one)
    ∙ (ap
          (λ (t : Bool).
            if t
            then miss_infinite fresh c (first_invalid c c.setsz k)
            else by_policy (miss_finite req c k tag nofetchcoal) c.replacement)
          fin
        ∙ by_policy-known _ c.replacement repl)

-- the choice among the lines of the set at `set_ind`
chosen : Cache → ℕ → Option (ℕ × ℕ)
chosen c k = choose (scan_pure c k c.setsz 0 no_bests)

miss_finite-chosen :
    (req : Req) (c : Cache) (k reqtag : ℕ) (nofetchcoal : Bool)
    → ((j : ℕ) → j < c.setsz → (entry c (k + j)).st ≢ bad_line_state)
    → (d : Cache) × (miss_finite req c k reqtag nofetchcoal
        ≡ ok (replace req nofetchcoal k d (chosen c k)))
unfolding miss_finite chosen
miss_finite-chosen req c k reqtag nofetchcoal known =
    let scan =
      scan_set-Rounds k reqtag c.setsz 0 c c no_bests (λ j h. known j (omega arith))
        (refl, λ j. refl) in
    (
      scan.0,
      ap
          (λ (m : Result (Cache × Bests)).
            m >>= (λ (s : Cache × Bests). ok (replace req nofetchcoal k (s.0) (choose (s.1)))))
          (scan.1),
    )

-- the line l is of a kind before that of m, or of its kind and not younger
abbrev pub NotWorse : Line → Line → Type 0
NotWorse l m =
    (kind_code (pick_of l.st) < kind_code (pick_of m.st))
    ⊎ ((kind_code (pick_of l.st) ≡ kind_code (pick_of m.st)) × (m.age ≤ l.age))

better :
    (l m : Line) (q p : Pick)
    → pick_of l.st ≡ some q
    → pick_of m.st ≡ some p
    → (pick_code q < pick_code p) ⊎ ((q ≡ p) × (m.age ≤ l.age))
    → NotWorse l m
unfolding kind_code
better l m q p eq ep (inl lt) =
    let a = ap kind_code eq in let b = ap kind_code ep in inl (omega arith)
better l m q p eq ep (inr (same, age)) =
    inr (ap kind_code (eq ∙ (ap (λ (r : Pick). some r) same ∙ sym ep)), age)

-- with no line that may be replaced there are no candidates, and no choice
no_candidate :
    (c : Cache) (k n : ℕ) (p : Pick) (x : Candidate)
    → ((j : ℕ) → j < n → usable c.level (entry c (k + j)) ≡ false)
    → Nothing c k x ⊎ Something c k n p x
    → x.best ≡ none
no_candidate c k n p x h (inl nothing) = nothing.0
no_candidate c k n p x h (inr some_line) =
    let w = h (some_line.0) (some_line.2) in let u = some_line.3.0 in absurd (cc)

best_of-rest :
    (o : Option ℕ) (age : ℕ) (rest : Option (ℕ × ℕ)) → o ≡ none → best_of o age rest ≡ rest
unfolding best_of
best_of-rest o age rest e = ap (λ (x : Option ℕ). best_of x age rest) e

choose-none : (b : Bests) → ((p : Pick) → (b p).best ≡ none) → choose b ≡ none
unfolding choose
choose-none b h =
    best_of-rest _ _ _ (h pick_inv)
    ∙ (best_of-rest _ _ _ (h pick_clean)
        ∙ (best_of-rest _ _ _ (h pick_private) ∙ best_of-rest _ _ _ (h pick_dirty)))

module _ (fresh : ℕ → Line) (req : Req) (c : Cache) (set_ind : ℕ) (nofetchcoal : Bool)
    (assoc : c.setsz ≢ 1) (finite : c.infinite ≡ false) (policy : c.replacement ≢ random)
    (known : (j : ℕ) → j < c.setsz → (entry c (set_ind + j)).st ≢ bad_line_state) where
  Replaces : Option (ℕ × ℕ) → Type 0
  Replaces o =
      (d : Cache) × (miss_ageupdate fresh req c set_ind nofetchcoal
        ≡ ok (replace req nofetchcoal set_ind d o))

  miss-Replaces : (o : Option (ℕ × ℕ)) → chosen c set_ind ≡ o → Replaces o
  unfolding Replaces
  miss-Replaces o e =
      let m =
        miss_finite-chosen req c set_ind (req.address / 2 ^ c.non_tag_bits) nofetchcoal known in
      (
        m.0,
        miss_ageupdate-finite fresh req c set_ind nofetchcoal assoc finite policy
            ∙ (m.1 ∙ ap (λ (x : Option (ℕ × ℕ)). ok (replace req nofetchcoal set_ind (m.0) x)) e),
      )

  set-AllBest : AllBest c set_ind c.setsz (scan_pure c set_ind c.setsz 0 no_bests)
  set-AllBest =
      let same : ◌≡◌ {A = ℕ} (0 + c.setsz) c.setsz = omega arith in
      subst (λ (n : ℕ). AllBest c set_ind n (scan_pure c set_ind c.setsz 0 no_bests)) same
        (scan_pure-AllBest c set_ind c.setsz 0 no_bests (λ j h. known j (omega arith))
          (no_bests-AllBest c set_ind))

  -- In a finite set-associative cache with LRU or FIFO replacement whose lines are in known states,
  -- when a line j of the set that may be replaced is older than 0: miss_ageupdate does not fail and
  -- replaces a line v of the set that may be replaced; v is of a kind before that of line j (in the
  -- order INVALID, SH_CL, PR_CL, dirty), or of its kind and not younger.
  pub victim_chosen :
      (j : ℕ)
      → j < c.setsz
      → usable c.level (entry c (set_ind + j)) ≡ true
      → 0 < (entry c (set_ind + j)).age
      → (out : Missed) × (v : ℕ) × (miss_ageupdate fresh req c set_ind nofetchcoal ≡ ok out)
        × (out.replaced ≡ true)
        × (out.set_ind ≡ set_ind + v)
        × (v < c.setsz)
        × (usable c.level (entry c (set_ind + v)) ≡ true)
        × NotWorse (entry c (set_ind + v)) (entry c (set_ind + j))
  unfolding Replaces chosen replace
  victim_chosen j lt u old = elim (Option-cases (pick_of (entry c (set_ind + j)).st)) [
    | inl unknown ↦ absurd (pick_of-known _ (known j lt) unknown)
    | inr (p, e) ↦
        let ch = choose-Chosen c set_ind c.setsz _ j p set-AllBest lt (u, e) old in
        let v : ℕ = ch.0 in
        let r = miss-Replaces (some (v, (entry c (set_ind + v)).age)) (ch.2) in
        (
          replace req nofetchcoal set_ind (r.0) (some (v, (entry c (set_ind + v)).age)),
          v,
          r.1,
          refl,
          refl,
          ch.3,
          ch.4.0,
          better (entry c (set_ind + v)) (entry c (set_ind + j)) (ch.1) p (ch.4.1) e (ch.5),
        )
  ]

  -- In such a cache, when no line of the set may be replaced, miss_ageupdate does not fail, replaces
  -- none and leaves set_ind.
  pub no_victim :
      ((j : ℕ) → j < c.setsz → usable c.level (entry c (set_ind + j)) ≡ false)
      → (out : Missed) × (miss_ageupdate fresh req c set_ind nofetchcoal ≡ ok out)
        × (out.replaced ≡ false)
        × (out.set_ind ≡ set_ind)
  unfolding Replaces chosen replace
  no_victim none_usable =
      let r =
        miss-Replaces none (
          choose-none _
            (λ p. no_candidate c set_ind c.setsz p _ none_usable ((set-AllBest p).0))) in
      (replace req nofetchcoal set_ind (r.0) none, r.1, refl, refl)
