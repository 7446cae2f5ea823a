-- ===== src/Directory/Sharers/Found.antt =====
-- What `DirFind_FM` finds (MemSys/directory.c): the sharers of a line but for one node.
use rsim.Prelude.{
  ℕ, zero, suc, ◌+◌, ◌-◌, ◌*◌, ◌/◌, ◌%◌, ◌≤◌, ◌<◌, ◌≡◌, ◌≢◌, ap, refl, sym, ◌∙◌, inl, inr, Bool,
  true, false, ◌&&◌, some, ◌==◌, ltb, ==_ne, eq_of_==, ne_of_==, Bool-cases, if◌then◌else◌, update,
  update_self, update_ne, arith,
}
use mathlib.Core.Path.{subst}
use rsim.Directory.{DirLine, Dir}
use rsim.Directory.Sharers.{bit_of, Search, find_node, find_bits, nonzero, find_words, find_fm}
use rsim.Directory.Sharers.Count.{count, last_or}

-- The search has come to node m: it has found the nodes below m whose bits are set, all but one node
-- in its array, in rising order.
pub record Found (f : ℕ → Bool) (node m : ℕ) (s : Search) : Type 0 where
  pub counted : s.find ≡ count f m
  pub copied : s.node_copy ≡ (ltb node m && f node)
  pub split : s.find ≡ s.node_ary_idx + (if s.node_copy then 1 else 0)
  pub sound :
      (i : ℕ)
      → i < s.node_ary_idx
      → (s.node_ary i < m) × (f (s.node_ary i) ≡ true) × (s.node_ary i ≢ node)
  pub all_seen :
      (n : ℕ) → n < m → f n ≡ true → n ≢ node → (i : ℕ) × (i < s.node_ary_idx) × (s.node_ary i ≡ n)
  pub rising : (i j : ℕ) → i < j → j < s.node_ary_idx → s.node_ary i < s.node_ary j

bits_differ : (f : ℕ → Bool) (n m : ℕ) → f n ≡ true → f m ≡ false → n ≢ m
bits_differ f n m on off e = let same : f n ≡ f m = ap f e in cc

-- the search after the node itself, and after another node
self_met : Search → Search
self_met s = record s { node_copy = true; find = s.find + 1 }

other_met : ℕ → Search → Search
other_met m s = record s {
  node_ary = update s.node_ary s.node_ary_idx m;
  node_ary_idx = s.node_ary_idx + 1;
  find = s.find + 1;
}

find_node-same : (node m : ℕ) (s : Search) → m ≡ node → find_node true node m s ≡ self_met s
unfolding find_node self_met
find_node-same node m s h = ground (arith, h)

find_node-other : (node m : ℕ) (s : Search) → m ≢ node → find_node true node m s ≡ other_met m s
unfolding find_node other_met
find_node-other node m s h = ground (arith, ==_ne m node h)

module _ (f : ℕ → Bool) (node m : ℕ) (s : Search) (h : Found f node m s) where
  -- a node whose bit is not set
  skipped : f m ≡ false → Found f node (suc m) s
  unfolding count
  skipped off = record {
    counted = ground (arith, h.counted);
    copied = h.copied ∙ (elim (Bool-cases (f node)) [
      | inl on ↦ ground (arith, bits_differ f node m on off)
      | inr clear ↦ ground arith
    ]);
    split = h.split;
    sound = λ i k. let (a, b, c) = h.sound i k in (omega arith, b, c);
    all_seen = λ n k on ne. h.all_seen n (let d = bits_differ f n m on off in omega arith) on ne;
    rising = h.rising;
  }

  -- the node itself
  met_self : f m ≡ true → m ≡ node → Found f node (suc m) (self_met s)
  unfolding count self_met
  met_self on same = record {
    counted = ground (arith, h.counted);
    copied = ground (arith, ap f same);
    split = ground (arith, h.copied, h.split);
    sound = λ i k. let (a, b, c) = h.sound i k in (omega arith, b, c);
    all_seen = λ n k b ne. h.all_seen n (omega arith) b ne;
    rising = h.rising;
  }

  Sharer : ℕ → ℕ → Type 0
  Sharer b n = (n < b) × (f n ≡ true) × (n ≢ node)

  at_end : (i : ℕ) → i ≡ s.node_ary_idx → update s.node_ary s.node_ary_idx m i ≡ m
  at_end i e = ap (update s.node_ary s.node_ary_idx m) e ∙ update_self s.node_ary s.node_ary_idx m

  in_front : (i : ℕ) → i < s.node_ary_idx → update s.node_ary s.node_ary_idx m i ≡ s.node_ary i
  in_front i l = update_ne s.node_ary s.node_ary_idx i m (λ e. omega arith)

  -- another node
  met_other : f m ≡ true → m ≢ node → Found f node (suc m) (other_met m s)
  unfolding count other_met Sharer
  met_other on other = record {
    counted = ground (arith, h.counted);
    copied = h.copied ∙ ground arith;
    split = ground (arith, h.split);
    sound = λ i k. elim (last_or i s.node_ary_idx (omega arith)) [
      | inl here ↦ subst (Sharer (suc m)) (sym (at_end i here)) ((omega arith, on, other))
      | inr before ↦
          let (a, b, c) = h.sound i before in
          subst (Sharer (suc m)) (sym (in_front i before)) ((omega arith, b, c))
    ];
    all_seen = λ n k b ne. elim (last_or n m k) [
      | inl here ↦ (s.node_ary_idx, omega arith, at_end s.node_ary_idx refl ∙ sym here)
      | inr before ↦ let (i, l, e) = h.all_seen n before b ne in (i, omega arith, in_front i l ∙ e)
    ];
    rising = λ i j a b. elim (last_or j s.node_ary_idx (omega arith)) [
      | inl here ↦
          let l : i < s.node_ary_idx = omega arith in
          omega (arith, at_end j here, in_front i l, (h.sound i l).0)
      | inr before ↦
          let l : i < s.node_ary_idx = omega arith in
          omega (arith, in_front j before, in_front i l, h.rising i j a before)
    ];
  }

  step : Found f node (suc m) (if f m then find_node true node m s else s)
  step = elim (Bool-cases (f m)) [
    | inl on ↦ rw on (elim (Bool-cases (m == node)) [
      | inl same ↦
          let e = eq_of_== m node same in
          subst (Found f node (suc m)) (sym (find_node-same node m s e)) (met_self on e)
      | inr other ↦
          let e = ne_of_== m node other in
          subst (Found f node (suc m)) (sym (find_node-other node m s e)) (met_other on e)
    ])
    | inr off ↦ rw off (skipped off)
  ]

bit_in_word : (v : ℕ → ℕ → Bool) (i k : ℕ) → k < 32 → bit_of v (i * 32 + k) ≡ v i k
bit_in_word v i k h =
    let word : (i * 32 + k) / 32 ≡ i = omega arith in
    let place : (i * 32 + k) % 32 ≡ k = omega arith in
    ap (λ (j : ℕ). v j ((i * 32 + k) % 32)) word ∙ ap (v i) place

module _ (v : ℕ → ℕ → Bool) (node : ℕ) where
  Done : ℕ → Search → Type 0
  Done m s = Found (bit_of v) node m s

  find_bits-Done :
      (i n : ℕ) (s : Search)
      → n ≤ 32
      → Done (i * 32 + (32 - n)) s
      → Done (i * 32 + 32) (find_bits true node v i n s)
  unfolding find_bits Done
  find_bits-Done i zero s h d = d
  find_bits-Done i (suc n) s h d =
      let k : ℕ = 31 - n in
      let here : Done (i * 32 + k) s = subst (λ m. Done m s) (omega arith) d in
      let next = step (bit_of v) node (i * 32 + k) s here in
      let t = λ (b : Bool). if b then find_node true node (i * 32 + k) s else s in
      let next' : Done (suc (i * 32 + k)) (t (v i k)) =
        subst (λ (b : Bool). Done (suc (i * 32 + k)) (t b)) (bit_in_word v i k (omega arith))
          next in
      find_bits-Done i n (t (v i k)) (omega arith)
        (subst (λ m. Done m (t (v i k))) (omega arith) next')

  nonzero-false : (w : ℕ → Bool) (n k : ℕ) → nonzero w n ≡ false → k < n → w k ≡ false
  unfolding nonzero
  nonzero-false w zero k h l = absurd (omega arith)
  nonzero-false w (suc n) k h l = elim (last_or k n l) [
    | inl here ↦ ap w here ∙ ground arith
    | inr before ↦ nonzero-false w n k (ground arith) before
  ]

  -- a word without sharers
  skip_word :
      (i n : ℕ) (s : Search)
      → nonzero (v i) 32 ≡ false
      → n ≤ 32
      → Done (i * 32) s
      → Done (i * 32 + n) s
  unfolding Done
  skip_word i zero s z h d = subst (λ m. Done m s) (omega arith) d
  skip_word i (suc n) s z h d =
      let off = bit_in_word v i n h ∙ nonzero-false (v i) 32 n z h in
      subst (λ m. Done m s) (omega arith)
        (skipped (bit_of v) node (i * 32 + n) s (skip_word i n s z (omega arith) d) off)

  find_words-Done :
      (words n : ℕ) (s : Search)
      → n ≤ words
      → Done ((words - n) * 32) s
      → Done (words * 32) (find_words true node v words n s)
  unfolding find_words Done
  find_words-Done words zero s h d = subst (λ m. Done m s) (omega arith) d
  find_words-Done words (suc n) s h d =
      let i : ℕ = words - suc n in
      let t : Search = if nonzero (v i) 32 then find_bits true node v i 32 s else s in
      let after : Done (i * 32 + 32) t = elim (Bool-cases (nonzero (v i) 32)) [
        | inl some_set ↦
            rw some_set
              (find_bits-Done i 32 s (omega arith) (subst (λ m. Done m s) (omega arith) d))
        | inr clear ↦ rw clear (skip_word i 32 s clear (omega arith) d)
      ] in
      find_words-Done words n t (omega arith) (subst (λ m. Done m t) (omega arith) after)

start-Found :
    (f : ℕ → Bool) (node : ℕ) (ary : ℕ → ℕ)
    → Found f node 0 (record { node_ary = ary; node_ary_idx = 0; find = 0; node_copy = false })
unfolding count
start-Found f node ary = record {
  counted = refl;
  copied = ground arith;
  split = refl;
  sound = λ i k. absurd (omega arith);
  all_seen = λ n k on ne. absurd (omega arith);
  rising = λ i j a b. absurd (omega arith);
}

-- `DirFind_FM` with an array returns, for every line and node, the number of the line's sharers, tells whether the node is one of
-- them, and puts exactly the other sharers in the array, each once and in rising order.
pub find_fm-Found :
    (d : Dir) (l : DirLine) (ary : ℕ → ℕ) (node : ℕ)
    → Found (bit_of l.vector) node (d.vec_index * 32) (find_fm d l (some ary) node)
unfolding find_fm Done
find_fm-Found d l ary node =
    let s : Search = record { node_ary = ary; node_ary_idx = 0; find = 0; node_copy = false } in
    find_words-Done l.vector node d.vec_index d.vec_index s (omega arith) (
      subst (λ (m : ℕ). Found (bit_of l.vector) node m s) (omega arith)
        (start-Found (bit_of l.vector) node ary))
