-- ===== src/Delivery/Ranges.antt =====
-- `mergeHTTPDeliveryRanges` of app/http/delivery_status.go. An `int64` is an integer; after
-- clipping, both ends lie in 0 .. fileSize - 1 and are numbers, and `End + 1` cannot overflow.
pub mod Union
pub mod Count
use tdl.Prelude.{
  ℕ, zero, suc, ◌+◌, ◌-◌, Bool, true, false, ◌||◌, Option, none, some, List, [], ◌∷◌, ltb, leb,
  ◌==◌, if◌then◌else◌,
}
use tdl.Prelude.Int.{ℤ, pos, negsuc, pos_part}

-- persistentHTTPDeliveryRange
pub record DeliveryRange : Type 0 where
  pub start : ℤ
  pub end : ℤ

-- A range after clipping.
pub record Span : Type 0 where
  pub start : ℕ
  pub end : ℕ

-- One round of the first loop: `none` is its `continue`.
clip : ℕ → DeliveryRange → Option Span
clip size r = elim r.end [
  | negsuc _ ↦ none
  | pos last ↦
      let s : ℕ = pos_part r.start in
      let e : ℕ = if leb size last then size - 1 else last in
      if ltb e s || leb size s then none else some (record { start = s; end = e })
]

clip_all : ℕ → List DeliveryRange → List Span
clip_all size [] = []
clip_all size (r ∷ rs) = elim (clip size r) [
  | none ↦ clip_all size rs
  | some s ↦ s ∷ clip_all size rs
]

-- The order of `sort.Slice`. Spans that tie are equal, so any sort gives the same list.
before : Span → Span → Bool
before a b = if a.start == b.start then ltb a.end b.end else ltb a.start b.start

insert : Span → List Span → List Span
unfolding before
insert s [] = s ∷ []
insert s (t ∷ ts) = if before t s then t ∷ insert s ts else s ∷ t ∷ ts

sort : List Span → List Span
unfolding insert
sort [] = []
sort (s ∷ ss) = insert s (sort ss)

-- The last loop: `current` is the last span of `merged`.
coalesce : Span → List Span → List Span
coalesce current [] = current ∷ []
coalesce current (next ∷ rest) =
    let grown =
      coalesce (record current { end = if ltb current.end next.end then next.end else current.end })
        rest in
    let apart = current ∷ coalesce next rest in
    if leb next.start current.end || next.start == current.end + 1 then grown else apart

merge_sorted : List Span → List Span
unfolding coalesce
merge_sorted [] = []
merge_sorted (s ∷ ss) = coalesce s ss

-- mergeHTTPDeliveryRanges
unfoldable pub merge_ranges : List DeliveryRange → ℤ → List Span
unfolding clip_all clip sort merge_sorted
merge_ranges ranges (negsuc _) = []
merge_ranges ranges (pos zero) = []
merge_ranges ranges (pos (suc n)) = merge_sorted (sort (clip_all (suc n) ranges))

-- The sum that ParseDownloadTaskHTTPStatus makes of the merged ranges.
unfoldable pub delivered_bytes : List Span → ℕ
delivered_bytes [] = 0
delivered_bytes (s ∷ ss) = s.end - s.start + 1 + delivered_bytes ss
