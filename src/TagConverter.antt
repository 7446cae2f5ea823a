-- ===== src/TagConverter.antt =====
-- The tag converter, src/Processor/tagcvt.cc: a circular queue of the instances in flight by their
-- tags. An element is written in place in the queue, the only one that points at it. A failed check,
-- which ends the simulator, is `fatal`.
mod Graduate
use rsim.Prelude.{ℕ, ◌+◌, ◌-◌, Bool, Option, none, some, ◌==◌, if◌then◌else◌, update}
use rsim.Prelude.Result.{Result, ok, fatal}
use rsim.CircQ.{
  CircQ, insert_tail, delete_head, delete_tail, peek_head, peek_tail, peek_elt, set_elt, masked,
  search,
}

-- class TagtoInst; an instance is named by its address
pub record TagtoInst : Type 0 where
  pub tag : ℕ
  pub inst : ℕ
  pub count : ℕ

abbrev pub TagCvt : Type 0
TagCvt = CircQ TagtoInst

-- AddtoTagConverter; `none` when the queue is full
unfoldable pub add_to_tag_converter : ℕ → ℕ → TagCvt → Option TagCvt
add_to_tag_converter taag instt q = insert_tail q (record { tag = taag; inst = instt; count = 0 })

unfoldable pub tag_of : TagtoInst → ℕ
tag_of t = t.tag

unfoldable pub inst_of : Option (TagtoInst × ℕ) → Option ℕ
inst_of none = none
inst_of (some (t, _)) = some t.inst

unfoldable pub count_of : Option (TagtoInst × ℕ) → Option ℕ
count_of none = none
count_of (some (t, _)) = some t.count

-- convert_tag_to_inst and GetTagcount; `none` is NULL and -1
unfoldable pub convert_tag_to_inst : ℕ → TagCvt → Option ℕ
convert_tag_to_inst tag q = inst_of (search tag_of tag q)

unfoldable pub get_tagcount : ℕ → TagCvt → Option ℕ
get_tagcount tag q = count_of (search tag_of tag q)

-- `++count`
unfoldable pub counted : TagtoInst → TagtoInst
counted t = record t { count = t.count + 1 }

-- of an element that the search has found, wherever it stands in the array
unfoldable pub update_found : TagCvt → Option (TagtoInst × ℕ) → Option (ℕ × TagCvt)
update_found q none = none
update_found q (some (t, posn)) =
    some (t.count + 1, record q { arr = update q.arr (masked q (q.head + posn)) (counted t) })

-- UpdateTagcount; `none` is -1
unfoldable pub update_tagcount : ℕ → TagCvt → Option (ℕ × TagCvt)
update_tagcount tag q = update_found q (search tag_of tag q)

-- an element of the tag wanted, or the end of the simulator
unfoldable pub checked : {A : Type 0} → ℕ → Option TagtoInst → (TagtoInst → Result A) → Result A
checked taag none f = fatal
checked taag (some t) f = if t.tag == taag then f t else fatal

-- of an element at a position of the queue
unfoldable pub step_count : TagCvt → (posn : ℕ) → TagtoInst → Option (ℕ × TagCvt)
step_count q posn t = stepped (set_elt q (counted t) posn)
  where
    stepped : Option TagCvt → Option (ℕ × TagCvt)
    stepped none = none
    stepped (some r) = some (t.count + 1, r)

-- UpdateTaghead and UpdateTagtail
unfoldable pub or_fatal : {A : Type 0} → Option A → Result A
or_fatal none = fatal
or_fatal (some a) = ok a

unfoldable pub update_taghead : ℕ → TagCvt → Result (ℕ × TagCvt)
update_taghead tag q = checked tag (peek_head q) (λ t. or_fatal (step_count q 0 t))

unfoldable pub update_tagtail : ℕ → TagCvt → Result (ℕ × TagCvt)
update_tagtail tag q = checked tag (peek_tail q) (λ t. or_fatal (step_count q (q.cnt - 1) t))

-- TagCvtHead, TagCvtTail and GetTagCvtByPosn
unfoldable pub tag_cvt_head : ℕ → TagCvt → Result ℕ
tag_cvt_head taag q = checked taag (peek_head q) (λ t. ok t.inst)

unfoldable pub tag_cvt_tail : ℕ → TagCvt → Result ℕ
tag_cvt_tail taag q = checked taag (peek_tail q) (λ t. ok t.inst)

unfoldable pub get_tag_cvt_by_posn : ℕ → ℕ → TagCvt → Result ℕ
get_tag_cvt_by_posn taag index q = checked taag (peek_elt q index) (λ t. ok t.inst)

-- GetHeadInst
unfoldable pub get_head_inst : TagCvt → Option ℕ
get_head_inst q = head_inst (peek_head q)
  where
    head_inst : Option TagtoInst → Option ℕ
    head_inst none = none
    head_inst (some t) = some t.inst

-- GraduateTagConverter and FlushTagConverter
unfoldable pub taken_off : ℕ → Option (TagtoInst × TagCvt) → Result TagCvt
taken_off taag none = fatal
taken_off taag (some (t, q)) = if t.tag == taag then ok q else fatal

unfoldable pub graduate_tag_converter : ℕ → TagCvt → Result TagCvt
graduate_tag_converter taag q = taken_off taag (delete_head q)

unfoldable pub flush_tag_converter : ℕ → TagCvt → Result TagCvt
flush_tag_converter taag q = taken_off taag (delete_tail q)
