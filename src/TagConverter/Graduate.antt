-- ===== src/TagConverter/Graduate.antt =====
-- Instructions leave the tag converter (src/Processor/tagcvt.cc) in the order they came in.
mod Tests
use rsim.Prelude.{
  ℕ, ◌+◌, ◌<◌, ◌≡◌, ap, ◌∙◌, Bool, Option, some, none, ◌==◌, if◌then◌else◌, List, [], ◌∷◌, ◌++◌,
  length, arith,
}
use rsim.Prelude.Result.{Result, ok, fatal}
use rsim.CircQ.{CircQ, delete_head}
use rsim.CircQ.Fifo.{HoldsQueue, insert_tail-HoldsQueue, delete_head-HoldsQueue}
use rsim.TagConverter.{TagtoInst, TagCvt, add_to_tag_converter, graduate_tag_converter, taken_off}

-- A converter that holds the elements ts and is not full takes a new instruction with its tag behind
-- them, with a count of 0.
pub add_to_tag_converter_lem :
    (taag instt : ℕ) (q : TagCvt) (ts : List TagtoInst)
    → HoldsQueue q ts
    → length ts < q.max_elts
    → (r : TagCvt) × (add_to_tag_converter taag instt q ≡ some r)
      × HoldsQueue r (ts ++ ((record { tag = taag; inst = instt; count = 0 }) ∷ []))
unfolding add_to_tag_converter
add_to_tag_converter_lem taag instt q ts held room =
    insert_tail-HoldsQueue q (record { tag = taag; inst = instt; count = 0 }) ts held room

-- From a converter that holds t and then ts only the instruction of t's tag graduates, and what is
-- left holds ts; with any other tag the simulator ends.
pub graduate_tag_converter_lem :
    (taag : ℕ) (q : TagCvt) (t : TagtoInst) (ts : List TagtoInst)
    → HoldsQueue q (t ∷ ts)
    → (r : TagCvt) × (graduate_tag_converter taag q ≡ (if t.tag == taag then ok r else fatal))
      × HoldsQueue r ts
unfolding graduate_tag_converter taken_off
graduate_tag_converter_lem taag q t ts held =
    let out = delete_head-HoldsQueue q t ts held in (out.0, ap (taken_off taag) (out.1), out.2)
