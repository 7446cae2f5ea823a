-- ===== src/Directory/Cohe/Invariant.antt =====
-- The invariant of the directory (MemSys/directory.c), and what keeps it at one line.
use rsim.Prelude.{
  ℕ, ◌*◌, ◌≤◌, ◌<◌, ◌≡◌, refl, Bool, true, false, ◌&&◌, ◌==◌, if◌then◌else◌, if_elim, update,
}
use mathlib.Core.Path.{subst}
use rsim.Directory.{DirLine, Dir, Response, LineState, uncached, dir_shared, dir_private}
use rsim.Directory.Sharers.Count.{Fits, IsValid}
use rsim.Directory.Cohe.Lines.{Counted}

-- The directory's bit vectors have a bit for every node, and every line is valid; a line of the pool
-- that is not in use is zeroed, which is a valid line.
pub record AllValid (d : Dir) : Type 0 where
  pub roomy : d.num_nodes ≤ d.vec_index * 32
  pub valid : (a : ℕ) → IsValid d.vec_index (d.lines a)

-- a line that has been given a valid state
pub put-IsValid :
    (words : ℕ) (lines : ℕ → DirLine) (a : ℕ) (l : DirLine)
    → ((b : ℕ) → IsValid words (lines b))
    → IsValid words l
    → (b : ℕ) → IsValid words (update lines a l b)
put-IsValid words lines a l all one b = if_elim (IsValid words) (b == a) (λ _. one) (λ _. all b)

-- a line whose sharers have changed, in a state that fits
pub restated :
    (words : ℕ) (k : DirLine) (st : LineState)
    → Counted words k
    → Fits st k.numsharers
    → IsValid words (record k { state = st })
restated words k st c fits = record { counted = c; fits = fits }

-- a line that is given out alone, when it had no sharers, or shared
pub grant-Fits :
    (excl : Bool) (n : ℕ)
    → 0 < n
    → (excl ≡ true → n ≡ 1)
    → Fits (if excl then dir_private else dir_shared) n
grant-Fits true n pos alone = alone refl
grant-Fits false n pos alone = pos

pub uncached-Fits : (st : LineState) (n : ℕ) → Fits st n → st ≡ uncached → n ≡ 0
uncached-Fits st n h e = subst (λ (s : LineState). Fits s n) e h

pub and_left : (a b : Bool) → (a && b) ≡ true → a ≡ true
and_left true b h = refl
and_left false b h = h

-- what is kept by a step that has an answer
abbrev pub Kept : Response × Dir → Type 0
Kept out = AllValid out.1
