-- ===== src/Directory/Valid.antt =====
-- The cases of `DirSim` (MemSys/directory.c) keep the directory's lines valid.
use rsim.Prelude.{ℕ, ◌*◌, ◌≡◌, refl, sym, false, Option, List, none, some}
use rsim.Prelude.Result.{OnOk, OnOk-bind}
use rsim.Directory.{Dir, Params, Response}
use rsim.Directory.Sharers.Count.{count-none, IsValid}
use rsim.Directory.Table.{hash_lookup_fm, hash_index, moved_front, unlink, new_line}
use rsim.Directory.Cohe.{cohe_line, dir_cohe}
use rsim.Directory.Cohe.Invariant.{AllValid, put-IsValid}
use rsim.Directory.Cohe.Waiting.{cohe_line-AllValid}

new_line-IsValid : (words tag : ℕ) → IsValid words (new_line tag)
unfolding new_line
new_line-IsValid words tag = record {
  counted = sym (count-none (λ _. false) (words * 32) (λ n h. refl));
  fits = refl;
}

hash_lookup_fm-AllValid : (tag : ℕ) (d : Dir) → AllValid d → AllValid (hash_lookup_fm tag d).1
unfolding hash_lookup_fm moved_front
hash_lookup_fm-AllValid tag d v = by_chain (unlink d.lines tag (d.data_hash (hash_index tag)))
  where
    by_chain : (o : Option (ℕ × List ℕ)) → AllValid (moved_front tag d (hash_index tag) o).1
    by_chain (some (a, rest)) = record { roomy = v.roomy; valid = v.valid }
    by_chain none = record {
      roomy = v.roomy;
      valid =
          put-IsValid d.vec_index d.lines d.next_line (new_line tag) v.valid
            (new_line-IsValid d.vec_index tag);
    }

-- `Dir_Cohe` keeps every line of the directory valid.
pub dir_cohe-AllValid :
    (pm : Params) (p : ℕ) (d : Dir)
    → AllValid d
    → OnOk (λ (out : Response × ℕ × Dir). AllValid out.2) (dir_cohe pm p d)
unfolding dir_cohe
dir_cohe-AllValid pm p d v =
    let found = hash_lookup_fm (d.reqs p).tag d in
    OnOk-bind (λ (out : Response × ℕ × Dir). AllValid out.2)
      (λ (out : Response × Dir). AllValid out.1) (cohe_line pm p found.0 found.1) _
      (cohe_line-AllValid pm p found.0 found.1 (hash_lookup_fm-AllValid (d.reqs p).tag d v))
      (λ out w. w)

pub hash_lookup_fm-reqs : (tag : ℕ) (d : Dir) → (hash_lookup_fm tag d).1.reqs ≡ d.reqs
unfolding hash_lookup_fm moved_front
hash_lookup_fm-reqs tag d = by_chain (unlink d.lines tag (d.data_hash (hash_index tag)))
  where
    by_chain : (o : Option (ℕ × List ℕ)) → (moved_front tag d (hash_index tag) o).1.reqs ≡ d.reqs
    by_chain (some (a, rest)) = refl
    by_chain none = refl
