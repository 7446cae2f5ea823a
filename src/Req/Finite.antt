-- ===== src/Req/Finite.antt =====
-- Two functions of an enumeration are equal at each value if their lists of values are equal, which
-- evaluation shows.
use rsim.Prelude.{
  ℕ, zero, suc, ◌≡◌, refl, sym, ap, ◌∙◌, Bool, true, false, Option, none, some, List, [], ◌∷◌,
}
use rsim.Req.{ReqType, req_code, CacheLineState, line_code, Protocol, Hints}

module _ {ℓ} {A : Type ℓ} where
  abbrev pub get_elem? : List A → ℕ → Option A
  get_elem? [] i = none
  get_elem? (x ∷ xs) zero = some x
  get_elem? (x ∷ xs) (suc i) = get_elem? xs i

  -- Both lists show the two values at one place.
  same_place :
      {x y : A} (xs ys : List A) (i : ℕ)
      → xs ≡ ys
      → get_elem? xs i ≡ some x
      → get_elem? ys i ≡ some y
      → x ≡ y
  same_place {x} {y} xs ys i e hx hy =
      let same : some x ≡ some y = sym hx ∙ (ap (λ l. get_elem? l i) e ∙ hy) in cc

  abbrev pub each_bool : (Bool → A) → List A
  each_bool f = f false ∷ f true ∷ []

  abbrev pub each_protocol : (Protocol → A) → List A
  each_protocol f = f Protocol.mesi ∷ f Protocol.msi ∷ []

  abbrev pub each_hints : (Hints → A) → List A
  each_hints f = f Hints.hints_none ∷ f Hints.hints_excl ∷ f Hints.hints_all ∷ []

  abbrev pub each_line : (CacheLineState → A) → List A
  each_line f =
      f CacheLineState.bad_line_state
      ∷ f CacheLineState.invalid
      ∷ f CacheLineState.pr_cl
      ∷ f CacheLineState.sh_cl
      ∷ f CacheLineState.pr_dy
      ∷ f CacheLineState.sh_dy
      ∷ []

  abbrev pub each_req : (ReqType → A) → List A
  each_req f =
      f ReqType.bad_req_type
      ∷ f ReqType.read
      ∷ f ReqType.write
      ∷ f ReqType.rmw
      ∷ f ReqType.l1write_prefetch
      ∷ f ReqType.l1read_prefetch
      ∷ f ReqType.l2write_prefetch
      ∷ f ReqType.l2read_prefetch
      ∷ f ReqType.tts
      ∷ f ReqType.spin
      ∷ f ReqType.writeflag
      ∷ f ReqType.read_sh
      ∷ f ReqType.read_own
      ∷ f ReqType.upgrade
      ∷ f ReqType.read_disc
      ∷ f ReqType.write_inv
      ∷ f ReqType.rwrite
      ∷ f ReqType.reply_sh
      ∷ f ReqType.reply_excl
      ∷ f ReqType.reply_upgrade
      ∷ f ReqType.reply_excldy
      ∷ f ReqType.reply_shdy
      ∷ f ReqType.reply_disc
      ∷ f ReqType.reply_writeinv
      ∷ f ReqType.copyback
      ∷ f ReqType.copyback_invl
      ∷ f ReqType.invl
      ∷ f ReqType.copyback_shdy
      ∷ f ReqType.copyback_disc
      ∷ f ReqType.push
      ∷ f ReqType.wrb
      ∷ f ReqType.repl
      ∷ []

  place_req : (f : ReqType → A) (r : ReqType) → get_elem? (each_req f) (req_code r) ≡ some (f r)
  place_req f ReqType.bad_req_type = refl
  place_req f _ = refl

  place_line :
      (f : CacheLineState → A) (s : CacheLineState)
      → get_elem? (each_line f) (line_code s) ≡ some (f s)
  place_line f CacheLineState.bad_line_state = refl
  place_line f _ = refl

  pub ext_req : (f g : ReqType → A) → each_req f ≡ each_req g → (r : ReqType) → f r ≡ g r
  ext_req f g e r = same_place _ _ (req_code r) e (place_req f r) (place_req g r)

  pub ext_line :
      (f g : CacheLineState → A) → each_line f ≡ each_line g → (s : CacheLineState) → f s ≡ g s
  ext_line f g e s = same_place _ _ (line_code s) e (place_line f s) (place_line g s)

  pub ext_bool : (f g : Bool → A) → each_bool f ≡ each_bool g → (b : Bool) → f b ≡ g b
  ext_bool f g e false = same_place _ _ 0 e refl refl
  ext_bool f g e true = same_place _ _ 1 e refl refl

  pub ext_protocol :
      (f g : Protocol → A) → each_protocol f ≡ each_protocol g → (p : Protocol) → f p ≡ g p
  ext_protocol f g e Protocol.mesi = same_place _ _ 0 e refl refl
  ext_protocol f g e Protocol.msi = same_place _ _ 1 e refl refl

  pub ext_hints : (f g : Hints → A) → each_hints f ≡ each_hints g → (h : Hints) → f h ≡ g h
  ext_hints f g e Hints.hints_none = same_place _ _ 0 e refl refl
  ext_hints f g e Hints.hints_excl = same_place _ _ 1 e refl refl
  ext_hints f g e Hints.hints_all = same_place _ _ 2 e refl refl

-- all rows of a coherence table at once
module _ {ℓ} {A : Type ℓ} where
  abbrev pub each_row : (CacheLineState → Bool → ReqType → A) → List (List (List A))
  each_row f = each_line (λ s. each_bool (λ a. each_req (f s a)))

  pub ext_row :
      (f g : CacheLineState → Bool → ReqType → A)
      → each_row f ≡ each_row g
      → (s : CacheLineState) (a : Bool) (r : ReqType) → f s a r ≡ g s a r
  ext_row f g e s a = ext_req (f s a) (g s a) (
      ext_bool (λ b. each_req (f s b)) (λ b. each_req (g s b))
        (ext_line (λ t. each_bool (λ b. each_req (f t b))) (λ t. each_bool (λ b. each_req (g t b)))
          e s)
        a)
