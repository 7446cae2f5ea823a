-- ===== src/Cache/Frame.antt =====
-- What `hit_update` (MemSys/cache2.c) leaves alone: it writes lines and counters only.
use rsim.Prelude.{ℕ, zero, suc, ◌+◌, ◌≡◌, refl, ◌∙◌, arith, Bool-cases, inl, inr}
use rsim.Cache.{Req, Cache, line}
use rsim.Cache.Lru.{touch, hit_step, hit_loop, hit_update, keeps_ages}

-- The MSHRs and the fields that the code about them reads are the same.
pub record SameMshrs (c d : Cache) : Type 0 where
  pub mshrs : d.mshrs ≡ c.mshrs
  pub mshr_count : d.mshr_count ≡ c.mshr_count
  pub max_mshrs : d.max_mshrs ≡ c.max_mshrs
  pub level : d.level ≡ c.level

pub same_refl : (c : Cache) → SameMshrs c c
same_refl c = record { mshrs = refl; mshr_count = refl; max_mshrs = refl; level = refl }

same_trans : {c d e : Cache} → SameMshrs c d → SameMshrs d e → SameMshrs c e
same_trans h k = record {
  mshrs = k.mshrs ∙ h.mshrs;
  mshr_count = k.mshr_count ∙ h.mshr_count;
  max_mshrs = k.max_mshrs ∙ h.max_mshrs;
  level = k.level ∙ h.level;
}

hit_step-SameMshrs :
    (index tage : ℕ) (req : Req) (c : Cache) (temp : ℕ)
    → SameMshrs c (hit_step index tage req c temp)
unfolding hit_step touch
hit_step-SameMshrs index tage req c temp = ground arith

hit_loop-SameMshrs :
    (index tage : ℕ) (req : Req) (n : ℕ) (c : Cache) (temp : ℕ)
    → SameMshrs c (hit_loop index tage req n c temp)
unfolding hit_loop
hit_loop-SameMshrs index tage req zero c temp = same_refl c
hit_loop-SameMshrs index tage req (suc n) c temp =
    same_trans (hit_step-SameMshrs index tage req c temp)
      (hit_loop-SameMshrs index tage req n (hit_step index tage req c temp) (temp + 1))

pub hit_update-SameMshrs :
    (index : ℕ) (c : Cache) (set : ℕ) (req : Req) → SameMshrs c (hit_update index c set req)
unfolding hit_update
hit_update-SameMshrs index c set req = elim (Bool-cases (keeps_ages c)) [
  | inl y ↦ rw y (hit_loop-SameMshrs index (line c index).age req c.setsz c _)
  | inr n ↦ rw n (same_refl c)
]
