-- ===== src/Directory/Table/Chains.antt =====
-- The hash table of the lines as a map from tags (MemSys/directory.c).
use rsim.Prelude.{
  ℕ, ◌<◌, ◌≡◌, ◌≢◌, ap, refl, sym, ◌∙◌, inl, inr, Option, none, some, List, [], ◌∷◌, ◌==◌, eq_of_==,
  ne_of_==, Bool-cases, if◌then◌else◌, if_elim, update, update_self, update_ne, arith,
}
use rsim.Directory.{DirLine, Dir}
use rsim.Directory.Table.{behind, unlink, new_line, hash_index, moved_front, hash_lookup_fm}

-- the first line of a tag in a chain, and in the table
abbrev pub find_tag : (ℕ → DirLine) → ℕ → List ℕ → Option ℕ
find_tag lines t [] = none
find_tag lines t (a ∷ rest) =
    let more = find_tag lines t rest in if (lines a).tag == t then some a else more

abbrev pub stored : Dir → ℕ → Option ℕ
stored d t = find_tag d.lines t (d.data_hash (hash_index t))

-- The lines of a chain have been got from the pool.
abbrev pub Below : ℕ → List ℕ → Type 0
Below n [] = Unit {0}
Below n (a ∷ rest) = (a < n) × Below n rest

-- a chain without the line of a tag
abbrev Unlinked : (ℕ → DirLine) → ℕ → List ℕ → Option (ℕ × List ℕ) → Type 0
Unlinked lines tag xs none = find_tag lines tag xs ≡ none
Unlinked lines tag xs (some (a, rest)) =
    (find_tag lines tag xs ≡ some a)
    × ((lines a).tag ≡ tag)
    × ((t : ℕ) → t ≢ tag → find_tag lines t rest ≡ find_tag lines t xs)

behind-Unlinked :
    (lines : ℕ → DirLine) (tag a : ℕ) (xs : List ℕ) (o : Option (ℕ × List ℕ))
    → (lines a).tag ≢ tag
    → Unlinked lines tag xs o
    → Unlinked lines tag (a ∷ xs) (behind a o)
behind-Unlinked lines tag a xs none ne h = ground (arith, h)
behind-Unlinked lines tag a xs (some (b, rest)) ne (e, same, others) =
    (ground (arith, e), same, λ t k. ground (arith, others t k))

unlink-Unlinked :
    (lines : ℕ → DirLine) (tag : ℕ) (xs : List ℕ) → Unlinked lines tag xs (unlink lines tag xs)
unfolding unlink
unlink-Unlinked lines tag [] = refl
unlink-Unlinked lines tag (a ∷ xs) =
    if_elim (Unlinked lines tag (a ∷ xs)) ((lines a).tag == tag)
      (λ same. let e = eq_of_== _ _ same in (ground (arith, same), e, λ t k. ground (arith, e)))
      (λ other.
        behind-Unlinked lines tag a xs _ (ne_of_== _ _ other) (unlink-Unlinked lines tag xs))

-- a new line is in no chain, so it changes no search
find_tag-fresh :
    (lines : ℕ → DirLine) (n t : ℕ) (l : DirLine) (xs : List ℕ)
    → Below n xs
    → find_tag (update lines n l) t xs ≡ find_tag lines t xs
find_tag-fresh lines n t l [] h = refl
find_tag-fresh lines n t l (a ∷ xs) (h, k) =
    let e = update_ne lines n a l (λ q. omega arith) in
    ground (arith, ap (λ (x : DirLine). x.tag) e, find_tag-fresh lines n t l xs k)

-- What a look-up of a tag does to the table: it finds the line there, or a new one, under the tag from
-- then on, and every other tag finds what it found before.
pub record LooksUp (d : Dir) (tag a : ℕ) (e : Dir) : Type 0 where
  pub keeps : (t : ℕ) → stored e t ≡ (if t == tag then some a else stored d t)
  pub old_line : (b : ℕ) → stored d tag ≡ some b → a ≡ b
  pub fresh_line : stored d tag ≡ none → e.lines a ≡ new_line tag
  pub same_lines : (b : ℕ) → b < d.next_line → e.lines b ≡ d.lines b

module _ (tag : ℕ) (d : Dir) where
  i : ℕ
  i = hash_index tag

  -- a chain with another head, seen from any tag
  rechained :
      (lines : ℕ → DirLine) (a : ℕ) (rest : List ℕ)
      → (lines a).tag ≡ tag
      → ((t : ℕ) → t ≢ tag → find_tag lines t rest ≡ find_tag d.lines t (d.data_hash i))
      → ((t : ℕ)
          → t ≢ tag
          → hash_index t ≢ i
          → find_tag lines t (d.data_hash (hash_index t)) ≡ stored d t)
      → (t : ℕ)
      → find_tag lines t (update d.data_hash i (a ∷ rest) (hash_index t))
        ≡ (if t == tag then some a else stored d t)
  unfolding i
  rechained lines a rest named others elsewhere t = elim (Bool-cases (t == tag)) [
    | inl same ↦
        let e = eq_of_== t tag same in
        let chain =
          ap (update d.data_hash i (a ∷ rest)) (ap hash_index e)
          ∙ update_self d.data_hash i (a ∷ rest) in
        rw same (ap (find_tag lines t) chain ∙ ground (arith, named, e))
    | inr other ↦
        let ne = ne_of_== t tag other in
        rw other (elim (Bool-cases (hash_index t == i)) [
          | inl here ↦
              let h = eq_of_== (hash_index t) i here in
              let chain =
                ap (update d.data_hash i (a ∷ rest)) h ∙ update_self d.data_hash i (a ∷ rest) in
              ap (find_tag lines t) chain
              ∙ (ground (arith, named, ne) ∙ others t ne)
              ∙ ap (λ (j : ℕ). find_tag d.lines t (d.data_hash j)) (sym h)
          | inr there ↦
              let h = ne_of_== (hash_index t) i there in
              ap (find_tag lines t) (update_ne d.data_hash i (hash_index t) (a ∷ rest) h)
              ∙ elsewhere t ne h
        ])
  ]

  moved_front-LooksUp :
      ((j : ℕ) → Below d.next_line (d.data_hash j))
      → (o : Option (ℕ × List ℕ)) → Unlinked d.lines tag (d.data_hash i) o
      → LooksUp d tag (moved_front tag d i o).0 (moved_front tag d i o).1
  unfolding moved_front i new_line
  moved_front-LooksUp below (some (a, rest)) (found, named, others) = record {
    keeps = rechained d.lines a rest named others (λ t ne h. refl);
    old_line = λ b e. let s : some a ≡ some b = sym found ∙ e in cc;
    fresh_line = λ e. let s : some a ≡ none = sym found ∙ e in absurd (cc);
    same_lines = λ b h. refl;
  }
  moved_front-LooksUp below none missing =
      let lines : ℕ → DirLine = update d.lines d.next_line (new_line tag) in
      let self = update_self d.lines d.next_line (new_line tag) in
      record {
        keeps =
            rechained lines d.next_line (d.data_hash i) (ap (λ (l : DirLine). l.tag) self)
              (λ t ne.
                find_tag-fresh d.lines d.next_line t (new_line tag) (d.data_hash i) (below i))
              (λ t ne h.
                find_tag-fresh d.lines d.next_line t (new_line tag) (d.data_hash (hash_index t))
                  (below (hash_index t)));
        old_line = λ b e. let s : none ≡ some b = sym missing ∙ e in absurd (cc);
        fresh_line = λ e. self;
        same_lines = λ b h. update_ne d.lines d.next_line b (new_line tag) (λ q. omega arith);
      }

  -- DirHashLookup_FM, in a table whose chains hold lines that have been taken from the pool: it returns the line of the
  -- tag if the table has one and else a new, uncached one; from then on the tag finds that line, every
  -- other tag finds what it found before, and no line that was there has changed.
  pub hash_lookup_fm-LooksUp :
      ((j : ℕ) → Below d.next_line (d.data_hash j))
      → LooksUp d tag (hash_lookup_fm tag d).0 (hash_lookup_fm tag d).1
  unfolding hash_lookup_fm i
  hash_lookup_fm-LooksUp below =
      moved_front-LooksUp below (unlink d.lines tag (d.data_hash i))
        (unlink-Unlinked d.lines tag (d.data_hash i))
