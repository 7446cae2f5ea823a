-- ===== src/TagConverter/Graduate/Tests.antt =====
-- The theorems on the tag converter (src/Processor/tagcvt.cc), applied to one with two instructions.
use rsim.Prelude.{ℕ, ◌==◌, if◌then◌else◌, ◌+◌, ◌≡◌, refl, inr, some, [], ◌∷◌, arith}
use rsim.Prelude.Result.{ok}
use rsim.Prelude.Masks.{four-IsMaskSize}
use rsim.CircQ.Fifo.{HoldsQueue}
use rsim.TagConverter.{TagtoInst, TagCvt, add_to_tag_converter, graduate_tag_converter}
use rsim.TagConverter.Graduate.{add_to_tag_converter_lem, graduate_tag_converter_lem}

abbrev flight : ℕ → TagtoInst
flight n = record { tag = n; inst = 100 + n; count = 0 }

-- the tag 7 stands at the end of the array and 8 at its start
abbrev around : TagCvt
around = record {
  arr = λ n. if n == 3 then flight 7 else flight 8;
  sz = 4;
  head = 3;
  tail = 1;
  cnt = 2;
  max_elts = 4;
}

around-HoldsQueue : HoldsQueue around (flight 7 ∷ flight 8 ∷ [])
around-HoldsQueue =
    (four-IsMaskSize, omega arith, refl, omega arith, omega arith, inr refl, (refl, (refl, tt)))

add_to_tag_converter_lem_example :
    (r : TagCvt) × (add_to_tag_converter 9 50 around ≡ some r)
    × HoldsQueue r (flight 7 ∷ flight 8 ∷ (record { tag = 9; inst = 50; count = 0 }) ∷ [])
add_to_tag_converter_lem_example =
    add_to_tag_converter_lem 9 50 around (flight 7 ∷ flight 8 ∷ []) around-HoldsQueue (omega arith)

graduate_tag_converter_lem_example :
    (r : TagCvt) × (graduate_tag_converter 7 around ≡ ok r) × HoldsQueue r (flight 8 ∷ [])
graduate_tag_converter_lem_example =
    graduate_tag_converter_lem 7 around (flight 7) (flight 8 ∷ []) around-HoldsQueue
