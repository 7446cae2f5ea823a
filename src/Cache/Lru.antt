-- ===== src/Cache/Lru.antt =====
-- `hit_update` and `premiss_ageupdate` (MemSys/cache2.c): the ages for LRU replacement.
use rsim.Prelude.{
  ℕ, zero, suc, ◌+◌, ◌*◌, ◌/◌, Bool, false, not, ◌&&◌, none, ltb, ◌==◌, if◌then◌else◌,
}
use rsim.Cache.{Req, Cache, lru, is_small, line, set_line}

-- ages are kept for LRU in a finite cache
abbrev pub keeps_ages : Cache → Bool
keeps_ages c = elim c.replacement [ lru ↦ not c.infinite | _ ↦ false ]

-- the line hit, when the loop of `hit_update` comes to it
unfoldable pub touch : Cache → (temp : ℕ) → Req → Cache
touch c temp req =
    let l = line c temp in
    if l.pref && not req.prefetch
    then record (set_line c temp (record l { pref = false; pref_tag_repl = none; age = 1 })) {
      stat = record (c.stat) { pref_useful = c.stat.pref_useful + 1 };
    }
    else set_line c temp (record l { age = 1 })

-- one round of the loop of `hit_update`
unfoldable pub hit_step : (index tage : ℕ) → Req → Cache → (temp : ℕ) → Cache
unfolding touch
hit_step index tage req c temp =
    if ltb (line c temp).age tage
    then set_line c temp (record (line c temp) { age = (line c temp).age + 1 })
    else if temp == index
    then touch c temp req
    else c

-- the loop, by the rounds left
unfoldable pub hit_loop : (index tage : ℕ) → Req → ℕ → Cache → (temp : ℕ) → Cache
hit_loop index tage req zero c temp = c
hit_loop index tage req (suc n) c temp =
    hit_loop index tage req n (hit_step index tage req c temp) (temp + 1)

-- where the loop starts: at `set * setsz` in a small cache, and at `set` in a larger one
abbrev pub loop_start : Cache → (set : ℕ) → ℕ
loop_start c set = if is_small c then set * c.setsz else set

-- `hit_update`
unfoldable pub hit_update : (index : ℕ) → Cache → (set : ℕ) → Req → Cache
unfolding hit_loop
hit_update index c set req =
    if keeps_ages c then hit_loop index (line c index).age req c.setsz c (loop_start c set) else c

-- The line that is filled on a present miss. `nofetchcoal`: no demand fetch has coalesced.
unfoldable pub fill : Cache → (temp : ℕ) → Req → (nofetchcoal : Bool) → Cache
fill c temp req nofetchcoal =
    set_line c temp
      (record (line c temp) { pref = req.prefetch && nofetchcoal; pref_tag_repl = none; age = 1 })

unfoldable pub premiss_step : (set_ind inv_age : ℕ) → Req → Bool → Cache → (temp : ℕ) → Cache
unfolding fill
premiss_step set_ind inv_age req nofetchcoal c temp =
    if ltb (line c temp).age inv_age
    then set_line c temp (record (line c temp) { age = (line c temp).age + 1 })
    else if temp == set_ind
    then fill c temp req nofetchcoal
    else c

unfoldable pub premiss_loop : (set_ind inv_age : ℕ) → Req → Bool → ℕ → Cache → (temp : ℕ) → Cache
premiss_loop set_ind inv_age req b zero c temp = c
premiss_loop set_ind inv_age req b (suc n) c temp =
    premiss_loop set_ind inv_age req b n (premiss_step set_ind inv_age req b c temp) (temp + 1)

-- `premiss_ageupdate`
unfoldable pub premiss_ageupdate : Cache → (set_ind : ℕ) → Req → (nofetchcoal : Bool) → Cache
unfolding premiss_loop
premiss_ageupdate c set_ind req nofetchcoal =
    if keeps_ages c
    then premiss_loop set_ind (line c set_ind).age req nofetchcoal c.setsz c
        ((set_ind / c.setsz) * c.setsz)
    else c
