-- ===== src/Delivery/Ranges/Union.antt =====
-- The merged ranges of app/http/delivery_status.go, against the bytes that the given ranges cover.
use tdl.Prelude.{
  ℕ, zero, suc, ◌+◌, ◌≤◌, ◌<◌, ◌≡◌, refl, ap, ◌∙◌, inl, inr, Bool, false, ◌&&◌, ◌||◌, none, some,
  List, [], ◌∷◌, arith, leb, Option-cases,
}
use tdl.Prelude.Int.{pos, negsuc, pos_part}
use tdl.Delivery.Ranges.{
  DeliveryRange, Span, clip, clip_all, insert, sort, coalesce, merge_sorted, merge_ranges,
}

abbrev pub within : ℕ → Span → Bool
within x s = leb s.start x && leb x s.end

-- Whether byte `x` lies in one of the spans.
unfoldable pub covered : ℕ → List Span → Bool
covered x [] = false
covered x (s ∷ ss) = within x s || covered x ss

abbrev pub in_range : ℕ → DeliveryRange → Bool
in_range x r = elim r.end [ negsuc _ ↦ false | pos last ↦ leb (pos_part r.start) x && leb x last ]

-- Whether byte `x` lies in one of the ranges as they were reported.
unfoldable pub reported : ℕ → List DeliveryRange → Bool
reported x [] = false
reported x (r ∷ rs) = in_range x r || reported x rs

-- Every span starts at `lo` or later, is not empty, ends below `size`, and leaves a gap before the
-- next one.
abbrev pub AreApart : ℕ → ℕ → List Span → Type 0
AreApart size lo [] = Unit {0}
AreApart size lo (s ∷ ss) =
    (lo ≤ s.start) × (s.start ≤ s.end) × (s.end < size) × AreApart size (s.end + 2) ss

abbrev AreInside : ℕ → List Span → Type 0
AreInside size [] = Unit {0}
AreInside size (s ∷ ss) = (s.start ≤ s.end) × (s.end < size) × AreInside size ss

abbrev AreSorted : ℕ → List Span → Type 0
AreSorted lo [] = Unit {0}
AreSorted lo (s ∷ ss) = (lo ≤ s.start) × AreSorted s.start ss

clip-covers :
    (size : ℕ) (r : DeliveryRange) (x : ℕ)
    → x < size
    → elim (clip size r) [ none ↦ false | some s ↦ within x s ] ≡ in_range x r
unfolding clip
clip-covers size r x h = ground arith

clip_inside :
    (size : ℕ) (r : DeliveryRange) (s : Span)
    → clip size r ≡ some s
    → (s.start ≤ s.end) × (s.end < size)
unfolding clip
clip_inside size r s e = ground arith

covered-clip_all :
    (size : ℕ) (rs : List DeliveryRange) (x : ℕ)
    → x < size
    → covered x (clip_all size rs) ≡ reported x rs
unfolding covered clip_all reported
covered-clip_all size [] x h = refl
covered-clip_all size (r ∷ rs) x h =
    ground (arith, clip-covers size r x h, covered-clip_all size rs x h)

AreInside-clip_all : (size : ℕ) (rs : List DeliveryRange) → AreInside size (clip_all size rs)
unfolding clip_all
AreInside-clip_all size [] = tt
AreInside-clip_all size (r ∷ rs) = elim (Option-cases (clip size r)) [
  | inl e ↦ rw (e, clip_all) (AreInside-clip_all size rs)
  | inr (s, e) ↦
      let ends = clip_inside size r s e in
      rw (e, clip_all) (ends.0, ends.1, AreInside-clip_all size rs)
]

covered-insert :
    (s : Span) (ss : List Span) (x : ℕ) → covered x (insert s ss) ≡ (within x s || covered x ss)
unfolding covered insert
covered-insert s [] x = refl
covered-insert s (t ∷ ts) x = ground (arith, covered-insert s ts x)

AreInside-insert :
    (size : ℕ) (s : Span) (ss : List Span)
    → s.start ≤ s.end
    → s.end < size
    → AreInside size ss
    → AreInside size (insert s ss)
unfolding insert
AreInside-insert size s [] a b h = (a, b, tt)
AreInside-insert size s (t ∷ ts) a b h = ground (arith, AreInside-insert size s ts a b)

AreSorted-insert :
    (lo : ℕ) (s : Span) (ss : List Span)
    → lo ≤ s.start
    → AreSorted lo ss
    → AreSorted lo (insert s ss)
unfolding insert
AreSorted-insert lo s [] a h = (a, tt)
AreSorted-insert lo s (t ∷ ts) a h = ground (arith, AreSorted-insert t.start s ts)

covered-sort : (ss : List Span) (x : ℕ) → covered x (sort ss) ≡ covered x ss
unfolding covered sort
covered-sort [] x = refl
covered-sort (s ∷ ss) x =
    covered-insert s (sort ss) x ∙ ap (λ b. within x s || b) (covered-sort ss x)

AreInside-sort : (size : ℕ) (ss : List Span) → AreInside size ss → AreInside size (sort ss)
unfolding sort
AreInside-sort size [] h = tt
AreInside-sort size (s ∷ ss) h =
    AreInside-insert size s (sort ss) h.0 h.1 (AreInside-sort size ss h.2)

AreSorted-sort : (ss : List Span) → AreSorted 0 (sort ss)
unfolding sort
AreSorted-sort [] = tt
AreSorted-sort (s ∷ ss) = AreSorted-insert 0 s (sort ss) (omega arith) (AreSorted-sort ss)

AreSorted-weaken : (lo hi : ℕ) (ss : List Span) → lo ≤ hi → AreSorted hi ss → AreSorted lo ss
AreSorted-weaken lo hi [] l h = tt
AreSorted-weaken lo hi (s ∷ ss) l h = (omega arith, h.1)

covered-coalesce :
    (size : ℕ) (current : Span) (ss : List Span) (x : ℕ)
    → current.start ≤ current.end
    → AreInside size ss
    → AreSorted current.start ss
    → covered x (coalesce current ss) ≡ (within x current || covered x ss)
unfolding covered coalesce
covered-coalesce size current [] x a i h = refl
covered-coalesce size current (next ∷ rest) x a i h = ground (
  arith,
  covered-coalesce size (record current { end = next.end }) rest x,
  covered-coalesce size current rest x,
  covered-coalesce size next rest x,
  AreSorted-weaken current.start next.start rest,
)

AreApart-coalesce :
    (size lo : ℕ) (current : Span) (ss : List Span)
    → lo ≤ current.start
    → current.start ≤ current.end
    → current.end < size
    → AreSorted current.start ss
    → AreInside size ss
    → AreApart size lo (coalesce current ss)
unfolding coalesce
AreApart-coalesce size lo current [] l a b s i = (l, a, b, tt)
AreApart-coalesce size lo current (next ∷ rest) l a b s i = ground (
  arith,
  AreApart-coalesce size lo (record current { end = next.end }) rest,
  AreApart-coalesce size lo current rest,
  AreApart-coalesce size (current.end + 2) next rest,
  AreSorted-weaken current.start next.start rest,
)

merge_sorted_lem :
    (size : ℕ) (ss : List Span)
    → AreInside size ss
    → AreSorted 0 ss
    → AreApart size 0 (merge_sorted ss) × ((x : ℕ) → covered x (merge_sorted ss) ≡ covered x ss)
unfolding merge_sorted covered
merge_sorted_lem size [] i s = (tt, λ x. refl)
merge_sorted_lem size (t ∷ ts) i s = (
  AreApart-coalesce size 0 t ts (omega arith) i.0 i.1 s.1 i.2,
  λ x. covered-coalesce size t ts x i.0 i.2 s.1,
)

-- The merged ranges are sorted, not empty, inside the file and separated by gaps, and they cover
-- exactly the bytes of the file that the reported ranges cover.
pub merge_ranges_lem :
    (rs : List DeliveryRange) (size : ℕ)
    → AreApart size 0 (merge_ranges rs (pos size))
      × ((x : ℕ) → x < size → covered x (merge_ranges rs (pos size)) ≡ reported x rs)
unfolding merge_ranges
merge_ranges_lem rs zero = (tt, λ x h. absurd (omega arith))
merge_ranges_lem rs (suc n) =
    let spans = clip_all (suc n) rs in
    let (apart, same) =
      merge_sorted_lem (suc n) (sort spans)
        (AreInside-sort (suc n) spans (AreInside-clip_all (suc n) rs)) (AreSorted-sort spans) in
    (apart, λ x h. same x ∙ covered-sort spans x ∙ covered-clip_all (suc n) rs x h)
