-- ===== src/Cache/Tests/Victims.antt =====
-- The choice of a victim (`miss_ageupdate`), applied to a set of four lines.
use rsim.Prelude.{ℕ, ◌+◌, ◌*◌, ◌%◌, ◌<◌, ◌≡◌, ◌≢◌, refl, true, arith, if_elim, ◌==◌}
use rsim.Prelude.Result.{ok}
use rsim.Req.{CacheLineState, bad_line_state}
use rsim.Cache.{Cache}
use rsim.Cache.Victim.{entry, usable, miss_ageupdate, Missed}
use rsim.Cache.Replace.{NotWorse, victim_chosen}
use rsim.Cache.Tests.{a_line, small_cache, a_read}

a_line-known : (k : ℕ) → (a_line k).st ≢ bad_line_state
a_line-known k =
    if_elim (λ (s : CacheLineState). s ≢ bad_line_state) (k % 4 == 3) (λ h e. cc) (λ h e. cc)

-- the set of the lines 4 to 7, whose line 7 is INVALID
victim_chosen_example :
    (out : Missed) × (v : ℕ) × (miss_ageupdate a_line a_read small_cache 4 true ≡ ok out)
    × (out.replaced ≡ true)
    × (out.set_ind ≡ 4 + v)
    × (v < 4)
    × (usable small_cache.level (entry small_cache (4 + v)) ≡ true)
    × NotWorse (entry small_cache (4 + v)) (entry small_cache (4 + 2))
victim_chosen_example =
    victim_chosen a_line a_read small_cache 4 true (λ e. omega arith) refl (λ e. cc)
      (λ j h. a_line-known _) 2 (omega arith) refl (omega arith)

-- upgrades are out for all lines
abbrev busy_cache : Cache
busy_cache = record small_cache {
  data_of = λ i k. record (a_line (i * 2048 + k)) { mshr_out = true };
}
