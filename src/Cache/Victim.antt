-- ===== src/Cache/Victim.antt =====
-- `miss_ageupdate` (MemSys/cache2.c): the choice of a victim on a total miss, and `GetReplReq`.
use rsim.Prelude.{
  ℕ, zero, suc, ◌+◌, ◌-◌, ◌*◌, ◌/◌, ◌^◌, Bool, true, false, not, ◌&&◌, ◌||◌, Option, none, some,
  ltb, ◌==◌, if◌then◌else◌,
}
use rsim.Prelude.Result.{Result, ok, fatal, ◌>>=◌}
use rsim.Req.{CacheLineState, bad_line_state, invalid, pr_cl, sh_cl, pr_dy, sh_dy, is_line}
use rsim.Cache.{Req, Line, Cache, CacheLevel, firstlevel_wt, random, sub_sz, line_at, put_line}

-- data[k / SUB_SZ][k % SUB_SZ], in a cache of any size
abbrev pub entry : Cache → ℕ → Line
entry c k = line_at false c.data_of k

abbrev pub set_entry : Cache → ℕ → Line → Cache
set_entry c k l = record c { data_of = put_line false c.data_of k l }

abbrev pub is_wt : CacheLevel → Bool
is_wt firstlevel_wt = true
is_wt _ = false

-- The line may be replaced: no upgrade is out for it, or the cache is a write-through one.
abbrev pub usable : CacheLevel → Line → Bool
usable level l = not l.mshr_out || is_wt level

-- `captr->stat.pref_damaging++` and `pref_useless++`
unfoldable pub count_damaging : Cache → Cache
count_damaging c = record c { stat = record (c.stat) { pref_damaging = c.stat.pref_damaging + 1 } }

unfoldable pub count_useless : Cache → Bool → Cache
count_useless c pref =
    if pref
    then record c { stat = record (c.stat) { pref_useless = c.stat.pref_useless + 1 } }
    else c

-- `pref_tag_repl == reqtag`
unfoldable pub is_tag : Option ℕ → ℕ → Bool
is_tag none t = false
is_tag (some x) t = x == t

-- A line comes back that a prefetch had replaced: that prefetch was a damaging one.
unfoldable pub damage : Cache → ℕ → (reqtag : ℕ) → Cache
damage c k reqtag =
    if is_tag (entry c k).pref_tag_repl reqtag
    then count_damaging (set_entry c k (record (entry c k) { pref_tag_repl = none }))
    else c

-- The prefetch accounting of the line that is filled; `pref_time`, a statistic, is left out.
unfoldable pub account : Req → (nofetchcoal : Bool) → Line → Line
account req nofetchcoal l =
    if req.prefetch && nofetchcoal
    then record l { pref_tag_repl = if is_line l.st invalid then none else l.tag; pref = true }
    else record l { pref_tag_repl = none; pref = false }

-- What the function leaves: the cache, `*set_ind`, and whether it returned 1 (not NO_REPLACE).
pub record Missed : Type 0 where
  pub cache : Cache
  pub set_ind : ℕ
  pub replaced : Bool

-- a direct-mapped cache
unfoldable pub miss_direct : Req → Cache → (set_ind reqtag : ℕ) → (nofetchcoal : Bool) → Missed
miss_direct req c k reqtag nofetchcoal =
    let l : Line = entry c k in
    let c1 : Cache = if is_line l.st invalid then c else damage c k reqtag in
    let c2 : Cache = count_useless c1 l.pref in
    if usable c.level l
    then record {
      cache = set_entry c2 k (account req nofetchcoal (entry c2 k));
      set_ind = k;
      replaced = true;
    }
    else record { cache = c; set_ind = k; replaced = false }

-- The four kinds of victim, best first, and the best line found of a kind with its age: `bestinv` and
-- `inv_age`, `bestclean` and `clean_age`, `bestprivate` and `private_age`, `bestdirty` and `dirty_age`
pub data Pick : Type 0 where
  pick_inv pick_clean pick_private pick_dirty : Pick

abbrev pub pick_code : Pick → ℕ
pick_code pick_inv = 0
pick_code pick_clean = 1
pick_code pick_private = 2
pick_code pick_dirty = 3

pub record Candidate : Type 0 where
  pub best : Option ℕ
  pub best_age : ℕ

abbrev pub pick_of : CacheLineState → Option Pick
pick_of invalid = some pick_inv
pick_of sh_cl = some pick_clean
pick_of pr_cl = some pick_private
pick_of pr_dy = some pick_dirty
pick_of sh_dy = some pick_dirty
pick_of bad_line_state = none

abbrev pub Bests : Type 0
Bests = Pick → Candidate

unfoldable pub no_bests : Bests
no_bests p = record { best = none; best_age = 0 }

-- if (age of the kind < age of line i) take line i
unfoldable pub consider : Bests → Pick → (i age : ℕ) → Bests
consider b p i age q =
    if (pick_code q == pick_code p) && ltb (b q).best_age age
    then record { best = some i; best_age = age }
    else b q

-- the switch on a line's state
unfoldable pub scan_line :
    Option Pick → Cache → Bests → (k i age reqtag : ℕ) → Result (Cache × Bests)
scan_line none c b k i age reqtag = fatal
scan_line (some pick_inv) c b k i age reqtag = ok (c, consider b pick_inv i age)
scan_line (some pick_clean) c b k i age reqtag = ok (damage c k reqtag, consider b pick_clean i age)
scan_line (some pick_private) c b k i age reqtag =
    ok (damage c k reqtag, consider b pick_private i age)
scan_line (some pick_dirty) c b k i age reqtag = ok (damage c k reqtag, consider b pick_dirty i age)

-- The first loop, by the rounds left.
unfoldable pub scan_set : (temp reqtag : ℕ) → ℕ → (i : ℕ) → Cache × Bests → Result (Cache × Bests)
scan_set temp reqtag zero i s = ok s
scan_set temp reqtag (suc n) i s =
    (if usable s.0.level (entry (s.0) (temp + i))
      then scan_line (pick_of (entry (s.0) (temp + i)).st) (s.0) (s.1) (temp + i) i
          (entry (s.0) (temp + i)).age reqtag
      else ok s)
    >>= scan_set temp reqtag n (i + 1)

-- the victim and its age, by the order of the kinds
unfoldable pub best_of : Option ℕ → ℕ → Option (ℕ × ℕ) → Option (ℕ × ℕ)
best_of none age rest = rest
best_of (some i) age rest = some (i, age)

unfoldable pub choose : Bests → Option (ℕ × ℕ)
choose b = best_of (b pick_inv).best (b pick_inv).best_age (
    best_of (b pick_clean).best (b pick_clean).best_age (
      best_of (b pick_private).best (b pick_private).best_age
        (best_of (b pick_dirty).best (b pick_dirty).best_age none)))

-- one round of the second loop
unfoldable pub age_step : Req → Bool → (temp victim repl_age : ℕ) → Cache → (i : ℕ) → Cache
age_step req nofetchcoal temp victim repl_age c i =
    let l : Line = entry c (temp + i) in
    if ltb l.age repl_age
    then set_entry c (temp + i) (record l { age = l.age + 1 })
    else if i == victim
    then count_useless (set_entry c (temp + i) (record (account req nofetchcoal l) { age = 1 }))
        l.pref
    else c

unfoldable pub age_set : Req → Bool → (temp victim repl_age : ℕ) → ℕ → (i : ℕ) → Cache → Cache
age_set req nofetchcoal temp victim repl_age zero i c = c
age_set req nofetchcoal temp victim repl_age (suc n) i c =
    age_set req nofetchcoal temp victim repl_age n (i + 1)
      (age_step req nofetchcoal temp victim repl_age c i)

-- after the first loop
unfoldable pub replace : Req → Bool → (temp : ℕ) → Cache → Option (ℕ × ℕ) → Missed
replace req nofetchcoal temp c none = record { cache = c; set_ind = temp; replaced = false }
replace req nofetchcoal temp c (some (victim, repl_age)) = record {
  cache = age_set req nofetchcoal temp victim repl_age c.setsz 0 c;
  set_ind = temp + victim;
  replaced = true;
}

unfoldable pub miss_finite :
    Req → Cache → (set_ind reqtag : ℕ) → (nofetchcoal : Bool) → Result Missed
miss_finite req c temp reqtag nofetchcoal =
    scan_set temp reqtag c.setsz 0 (c, no_bests)
    >>= (λ (s : Cache × Bests). ok (replace req nofetchcoal temp (s.0) (choose (s.1))))

-- the first INVALID line of an infinite cache, and the growth of one that has none, whose new lines
-- hold what the allocation `fresh` held, less their tag and state
unfoldable pub first_invalid : Cache → ℕ → (k : ℕ) → Option ℕ
first_invalid c zero k = none
first_invalid c (suc n) k =
    let rest = first_invalid c n (k + 1) in if is_line (entry c k).st invalid then some k else rest

unfoldable pub grow : (fresh : ℕ → Line) → Cache → Result Missed
grow fresh c =
    let lines : ℕ = c.num_lines + sub_sz in
    let i1 : ℕ = lines / sub_sz - 1 in
    if ltb (sub_sz * 100) lines
    then fatal
    else ok (record {
      cache = record c {
        num_lines = lines;
        setsz = lines;
        data_of = λ a j.
            if (a == i1) && ltb j sub_sz
            then record (fresh j) { tag = none; st = invalid }
            else c.data_of a j;
      };
      set_ind = lines - sub_sz;
      replaced = true;
    })

unfoldable pub miss_infinite : (fresh : ℕ → Line) → Cache → Option ℕ → Result Missed
miss_infinite fresh c none = grow fresh c
miss_infinite fresh c (some k) = ok (record { cache = c; set_ind = k; replaced = true })

-- `miss_ageupdate`
unfoldable pub miss_ageupdate :
    (fresh : ℕ → Line) → Req → Cache → (set_ind : ℕ) → (nofetchcoal : Bool) → Result Missed
miss_ageupdate fresh req c set_ind nofetchcoal =
    let reqtag : ℕ = req.address / 2 ^ c.non_tag_bits in
    if c.setsz == 1
    then ok (miss_direct req c set_ind reqtag nofetchcoal)
    else if c.infinite
    then miss_infinite fresh c (first_invalid c c.setsz set_ind)
    else elim c.replacement [ random ↦ fatal | _ ↦ miss_finite req c set_ind reqtag nofetchcoal ]
