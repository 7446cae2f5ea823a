-- ===== src/Directory/Sharers.antt =====
-- The sharers of a line, a bit for each node (MemSys/directory.c).
pub mod Count
pub mod Found
use rsim.Prelude.{
  ℕ, zero, suc, ◌+◌, ◌-◌, ◌*◌, ◌/◌, ◌%◌, Bool, true, false, not, ◌&&◌, ◌||◌, Option, none, some,
  leb, ◌==◌, if◌then◌else◌, update,
}
use rsim.Prelude.Result.{Result, ok, fatal}
use rsim.Directory.{Req, DirLine, Dir}

-- `v[i] & (1 << j)`, `v[i] | (1 << j)` and `v[i] & ~(1 << j)`, where i and j are the word and the bit
-- of a node
abbrev pub bit_of : (ℕ → ℕ → Bool) → ℕ → Bool
bit_of v n = v (n / 32) (n % 32)

abbrev pub put_bit : (ℕ → ℕ → Bool) → ℕ → Bool → ℕ → ℕ → Bool
put_bit v n b = update v (n / 32) (update (v (n / 32)) (n % 32) b)

-- the statistics of cold misses
unfoldable pub cold : DirLine → ℕ → Req → DirLine × Req
cold l n r =
    if bit_of l.cold_vec n
    then (l, r)
    else (record l { cold_vec = put_bit l.cold_vec n true }, record r { line_cold = true })

-- `DirAdd_FM`: whether the node was the only sharer, the line and the request
unfoldable pub add_fm : Dir → DirLine → ℕ → Req → Result (Bool × DirLine × Req)
add_fm d l n r =
    if leb d.num_nodes n
    then fatal
    else let hadit = bit_of l.vector n in
      let added = record l {
        numsharers = if hadit then l.numsharers else l.numsharers + 1;
        vector = put_bit l.vector n true;
      } in
      let c = cold added n r in ok (hadit && (l.numsharers == 1), c.0, c.1)

-- the words of the vector: 0 but for the word of the node, which is `1 << j`
abbrev pub only : ℕ → ℕ → (ℕ → ℕ → Bool) → ℕ → ℕ → Bool
only words n v i j = if i == n / 32 then j == n % 32 else if leb words i then v i j else false

-- `DirRmAllAdd_FM`
unfoldable pub rm_all_add_fm : Dir → DirLine → ℕ → Req → Result (DirLine × Req)
rm_all_add_fm d l n r =
    if leb d.num_nodes n
    then fatal
    else ok (cold (record l { numsharers = 1; vector = only d.vec_index n l.vector }) n r)

-- `DirRmAll_FM`
unfoldable pub rm_all_fm : Dir → DirLine → ℕ → Result DirLine
rm_all_fm d l n =
    if leb d.num_nodes n
    then fatal
    else ok (record l {
      numsharers = 0;
      vector = λ i j. if leb d.vec_index i then l.vector i j else false;
    })

-- `DirRm_FM`
unfoldable pub rm_fm : Dir → DirLine → ℕ → Result DirLine
rm_fm d l n =
    if leb d.num_nodes n
    then fatal
    else ok (record l {
      numsharers = if bit_of l.vector n then l.numsharers - 1 else l.numsharers;
      vector = put_bit l.vector n false;
    })

-- What `DirFind_FM` keeps: the array of nodes with the index of its next place, the number of sharers
-- and whether the node has a copy.
pub record Search : Type 0 where
  pub node_ary : ℕ → ℕ
  pub node_ary_idx : ℕ
  pub find : ℕ
  pub node_copy : Bool

-- a node whose bit is set; `has_ary` says that the caller has passed an array
unfoldable pub find_node : (has_ary : Bool) → ℕ → ℕ → Search → Search
find_node has_ary node_num node s =
    if has_ary && not (node == node_num)
    then record s {
      node_ary = update s.node_ary s.node_ary_idx node;
      node_ary_idx = s.node_ary_idx + 1;
      find = s.find + 1;
    }
    else record s { node_copy = true; find = s.find + 1 }

-- the loop over the bits of a word, from bit 32 - the rounds left
unfoldable pub find_bits : Bool → ℕ → (ℕ → ℕ → Bool) → (i : ℕ) → (left : ℕ) → Search → Search
find_bits has_ary node_num v i zero s = s
find_bits has_ary node_num v i (suc n) s =
    let k : ℕ = 31 - n in
    find_bits has_ary node_num v i n
      (if v i k then find_node has_ary node_num (i * 32 + k) s else s)

-- whether a word is not 0
unfoldable pub nonzero : (ℕ → Bool) → ℕ → Bool
nonzero w zero = false
nonzero w (suc n) = w n || nonzero w n

-- the loop over the words, from the word `words` - the rounds left
unfoldable pub find_words : Bool → ℕ → (ℕ → ℕ → Bool) → (words : ℕ) → (left : ℕ) → Search → Search
find_words has_ary node_num v words zero s = s
find_words has_ary node_num v words (suc n) s =
    let i : ℕ = words - suc n in
    find_words has_ary node_num v words n
      (if nonzero (v i) 32 then find_bits has_ary node_num v i 32 s else s)

-- `DirFind_FM`, with `none` for a null array
abbrev pub has : Option (ℕ → ℕ) → Bool
has none = false
has (some f) = true

abbrev pub array : Option (ℕ → ℕ) → ℕ → ℕ
array none = λ _. 0
array (some f) = f

unfoldable pub find_fm : Dir → DirLine → Option (ℕ → ℕ) → ℕ → Search
find_fm d l ary node_num =
    find_words (has ary) node_num l.vector d.vec_index d.vec_index
      (record { node_ary = array ary; node_ary_idx = 0; find = 0; node_copy = false })
