-- ===== src/Directory/Table.antt =====
-- The chained hash table of the lines (MemSys/directory.c). A chain is the list of the lines'
-- addresses, the head first.
pub mod Chains
use Prim.Native.Nat.{bit_and}
use rsim.Prelude.{
  ℕ, ◌+◌, Bool, true, false, Option, none, some, List, [], ◌∷◌, leb, ◌==◌, if◌then◌else◌, update,
}
use rsim.Directory.{DirLine, Dir, uncached}

-- the walk along a chain: the line of the tag, and the chain without it
abbrev pub behind : ℕ → Option (ℕ × List ℕ) → Option (ℕ × List ℕ)
behind a none = none
behind a (some (b, rest)) = some (b, a ∷ rest)

unfoldable pub unlink : (ℕ → DirLine) → ℕ → List ℕ → Option (ℕ × List ℕ)
unlink lines tag [] = none
unlink lines tag (a ∷ rest) =
    if (lines a).tag == tag then some (a, rest) else behind a (unlink lines tag rest)

-- A line of the pool YS__DirstPool, which hands out zeroed memory, for a tag
unfoldable pub new_line : ℕ → DirLine
new_line tag = record {
  tag = tag;
  vector = λ _ _. false;
  cold_vec = λ _ _. false;
  state = uncached;
  pend = false;
  numsharers = 0;
  extra = none;
}

unfoldable pub hash_index : ℕ → ℕ
hash_index tag = bit_and tag 1023

unfoldable pub moved_front : ℕ → Dir → (i : ℕ) → Option (ℕ × List ℕ) → ℕ × Dir
moved_front tag d i (some (a, rest)) = (a, record d { data_hash = update d.data_hash i (a ∷ rest) })
moved_front tag d i none = (
  d.next_line,
  record d {
    lines = update d.lines d.next_line (new_line tag);
    next_line = d.next_line + 1;
    data_hash = update d.data_hash i (d.next_line ∷ d.data_hash i);
  },
)

-- `DirHashLookup_FM`: the line, moved to the head of its chain, or a new one there
unfoldable pub hash_lookup_fm : ℕ → Dir → ℕ × Dir
hash_lookup_fm tag d =
    let i : ℕ = hash_index tag in moved_front tag d i (unlink d.lines tag (d.data_hash i))
