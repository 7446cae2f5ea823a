-- ===== src/Cache/Lookup.antt =====
-- `notpres` (MemSys/cache2.c): the search of a set for an address.
use rsim.Prelude.{
  ℕ, zero, suc, ◌+◌, ◌*◌, ◌/◌, ◌%◌, ◌^◌, Bool, false, Option, none, some, ◌==◌, if◌then◌else◌,
}
use rsim.Req.{invalid, is_line}
use rsim.Cache.{Line, Cache, line}

-- the results 0, 1 and 2
pub data Presence : Type 0 where
  hit present_miss total_miss : Presence

pub record Found : Type 0 where
  pub presence : Presence
  pub tag : ℕ
  pub set : ℕ
  pub set_ind : ℕ

abbrev pub has_tag : Line → ℕ → Bool
has_tag l t = elim l.tag [ none ↦ false | some u ↦ u == t ]

-- the loop over the lines of the set, by the rounds left: the first line with the tag
unfoldable pub find_line : Cache → (tag : ℕ) → ℕ → (temp : ℕ) → Option ℕ
find_line c tag zero temp = none
find_line c tag (suc n) temp =
    let rest = find_line c tag n (temp + 1) in if has_tag (line c temp) tag then some temp else rest

-- what is reported of the line that was found, or of the set
unfoldable pub found : Cache → (tag set : ℕ) → Option ℕ → Found
found c tag set none = record {
  presence = total_miss;
  tag = tag;
  set = set;
  set_ind = set * c.setsz;
}
found c tag set (some k) = record {
  presence = if is_line (line c k).st invalid then present_miss else hit;
  tag = tag;
  set = set;
  set_ind = k;
}

-- `notpres`
unfoldable pub notpres : ℕ → Cache → Found
unfolding find_line found
notpres address c =
    let tag = address / 2 ^ c.non_tag_bits in
    let set = (address / 2 ^ c.block_bits) % 2 ^ c.set_bits in
    found c tag set (find_line c tag c.setsz (set * c.setsz))
