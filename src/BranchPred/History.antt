-- ===== src/BranchPred/History.antt =====
-- What the two-bit prediction of Processor/branchpred.cc learns from the outcomes of a branch.
use Prim.Native.Nat.{bit_and}
use rsim.Prelude.{ℕ, ◌-◌, ◌≡◌, ◌≢◌, refl, ap, ◌∙◌, Bool, if◌then◌else◌, arith}
use rsim.BranchPred.{
  Predictor, BpType, twobit, twobitagree, static, eq_bit, posn, bpb_predict, train, bpb_complete,
}

-- the entry n of both tables
abbrev pub Entry : Predictor → ℕ → Bool → Bool → Type 0
Entry p n pred prev = (p.branch_preds n ≡ pred) × (p.prev_preds n ≡ prev)

-- The next prediction and history bit of an entry, as the diagram of the source draws them.
abbrev next_pred : Bool → Bool → Bool → Bool
next_pred pred prev inbit = if eq_bit prev pred then pred else inbit

train-Entry :
    (p : Predictor) (n : ℕ) (b : Bool)
    → Entry (train p n b) n (next_pred (p.branch_preds n) (p.prev_preds n) b) b
unfolding train
train-Entry p n b = ground arith

train-type : (p : Predictor) (n : ℕ) (b : Bool) → (train p n b).bpb_type ≡ p.bpb_type
unfolding train
train-type p n b = ground arith

train-size : (p : Predictor) (n : ℕ) (b : Bool) → (train p n b).sz_buf ≡ p.sz_buf
unfolding train
train-size p n b = ground arith

next_twice : (pred prev b : Bool) → next_pred (next_pred pred prev b) b b ≡ b
unfolding eq_bit
next_twice pred prev b = ground arith

next_opposite : (b c : Bool) → next_pred b b c ≡ b
unfolding eq_bit
next_opposite b c = ground arith

-- Two bits b at an entry fill both tables with it; a third bit leaves the prediction.
train_twice : (p : Predictor) (n : ℕ) (b : Bool) → Entry (train (train p n b) n b) n b b
unfolding eq_bit
train_twice p n b = ground (arith, train-Entry p n b, train-Entry (train p n b) n b)

train_thrice :
    (p : Predictor) (n : ℕ) (b c : Bool) → (train (train (train p n b) n b) n c).branch_preds n ≡ b
unfolding eq_bit
train_thrice p n b c = ground (arith, train_twice p n b, train-Entry (train (train p n b) n b) n c)

-- The bit that an outcome trains, and the prediction that a bit stands for, by the kind of predictor
-- and the static hint.
encoded : BpType → Bool → Bool → Bool
encoded twobit hint t = t
encoded twobitagree hint t = eq_bit t hint
encoded static hint t = t

encoded_twice : (k : BpType) (hint t : Bool) → encoded k hint (encoded k hint t) ≡ t
unfolding encoded eq_bit
encoded_twice twobit hint t = refl
encoded_twice twobitagree hint t = ground arith
encoded_twice static hint t = refl

complete_as :
    (k : BpType) (p : Predictor) (pc : ℕ) (t hint : Bool)
    → p.bpb_type ≡ k
    → k ≢ static
    → bpb_complete p pc t hint ≡ train p (posn p pc) (encoded k hint t)
unfolding bpb_complete encoded
complete_as twobit p pc t hint e h = cc
complete_as twobitagree p pc t hint e h = cc
complete_as static p pc t hint e h = absurd (h refl)

predict_as :
    (k : BpType) (p : Predictor) (pc : ℕ) (hint : Bool)
    → p.bpb_type ≡ k
    → k ≢ static
    → bpb_predict p pc hint ≡ encoded k hint (p.branch_preds (posn p pc))
unfolding bpb_predict encoded
predict_as twobit p pc hint e h = cc
predict_as twobitagree p pc hint e h = cc
predict_as static p pc hint e h = absurd (h refl)

posn-train : (p : Predictor) (n pc : ℕ) (b : Bool) → posn (train p n b) pc ≡ posn p pc
unfolding posn
posn-train p n pc b = ap (λ (m : ℕ). bit_and pc (m - 1)) (train-size p n b)

module _ (k : BpType) (pc : ℕ) (hint : Bool) where
  complete_at :
      (p : Predictor) (n : ℕ) (t : Bool)
      → p.bpb_type ≡ k
      → k ≢ static
      → posn p pc ≡ n
      → bpb_complete p pc t hint ≡ train p n (encoded k hint t)
  complete_at p n t e h q =
      complete_as k p pc t hint e h ∙ ap (λ (m : ℕ). train p m (encoded k hint t)) q

  -- a second and a third outcome
  complete_next :
      (p q : Predictor) (n : ℕ) (b t : Bool)
      → p.bpb_type ≡ k
      → k ≢ static
      → posn p pc ≡ n
      → q ≡ train p n b
      → bpb_complete q pc t hint ≡ train (train p n b) n (encoded k hint t)
  complete_next p q n b t e h m eq =
      ap (λ (r : Predictor). bpb_complete r pc t hint) eq
      ∙ complete_at (train p n b) n t (train-type p n b ∙ e) h (posn-train p n pc b ∙ m)

  predict_next :
      (p q : Predictor) (n : ℕ) (b : Bool)
      → p.bpb_type ≡ k
      → k ≢ static
      → posn p pc ≡ n
      → q ≡ train p n b
      → bpb_predict q pc hint ≡ encoded k hint ((train p n b).branch_preds n)
  predict_next p q n b e h m eq =
      ap (λ (r : Predictor). bpb_predict r pc hint) eq
      ∙ (predict_as k (train p n b) pc hint (train-type p n b ∙ e) h
          ∙ ap (λ (j : ℕ). encoded k hint ((train p n b).branch_preds j)) (posn-train p n pc b ∙ m))

-- With a predictor that is not static, two equal outcomes of a branch (with one static hint) make it
-- predict that outcome, whatever its entry held, and any single outcome after them leaves the
-- prediction as it is.
two_outcomes :
    (p : Predictor) (pc : ℕ) (hint t u : Bool)
    → p.bpb_type ≢ static
    → (bpb_predict (bpb_complete (bpb_complete p pc t hint) pc t hint) pc hint ≡ t)
      × (bpb_predict
            (bpb_complete (bpb_complete (bpb_complete p pc t hint) pc t hint) pc u hint)
            pc
            hint
          ≡ t)
two_outcomes p pc hint t u h =
    let k : BpType = p.bpb_type in
    let n : ℕ = posn p pc in
    let b : Bool = encoded k hint t in
    let p1 : Predictor = train p n b in
    let p2 : Predictor = train p1 n b in
    let once = complete_at k pc hint p n t refl h refl in
    let twice = complete_next k pc hint p _ n b t refl h refl once in
    let type1 = train-type p n b in
    let type2 = train-type p1 n b ∙ type1 in
    let posn1 = posn-train p n pc b in
    let posn2 = posn-train p1 n pc b ∙ posn1 in
    let thrice = complete_next k pc hint p1 _ n b u type1 h posn1 twice in
    (
      predict_next k pc hint p1 _ n b type1 h posn1 twice
          ∙ (ap (encoded k hint) ((train_twice p n b).0) ∙ encoded_twice k hint t),
      predict_next k pc hint p2 _ n (encoded k hint u) type2 h posn2 thrice
          ∙ (ap (encoded k hint) (train_thrice p n b (encoded k hint u)) ∙ encoded_twice k hint t),
    )
