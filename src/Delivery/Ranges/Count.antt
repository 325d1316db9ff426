-- ===== src/Delivery/Ranges/Count.antt =====
-- The delivered bytes of app/http/delivery_status.go, against a count of the bytes of the file.
use tdl.Prelude.{
  ℕ, zero, suc, ◌+◌, ◌-◌, ◌≤◌, ◌<◌, ◌≡◌, ◌↔◌, refl, ap, ◌∙◌, Bool, true, false, ◌&&◌, ◌||◌, sym,
  List, [], ◌∷◌, arith, dec_lt, ltb, if◌then◌else◌,
}
use tdl.Prelude.Int.{pos}
use tdl.Delivery.Ranges.{DeliveryRange, Span, merge_ranges, delivered_bytes}
use tdl.Delivery.Ranges.Union.{within, covered, reported, AreApart, merge_ranges_lem}

-- The numbers below `n` that pass a test.
unfoldable pub count_below : ℕ → (ℕ → Bool) → ℕ
count_below zero p = 0
count_below (suc n) p = (if p n then 1 else 0) + count_below n p

pub count_below-eq :
    (n : ℕ) (p q : ℕ → Bool) → ((x : ℕ) → x < n → p x ≡ q x) → count_below n p ≡ count_below n q
unfolding count_below
count_below-eq zero p q h = refl
count_below-eq (suc n) p q h = omega (
  arith,
  ap (λ b. if b then (let one : ℕ = 1 in one) else 0) (h n (omega arith)),
  count_below-eq n p q (λ x l. h x (omega arith)),
)

count_below-or :
    (n : ℕ) (p q : ℕ → Bool)
    → ((x : ℕ) → (p x && q x) ≡ false)
    → count_below n (λ x. p x || q x) ≡ count_below n p + count_below n q
unfolding count_below
count_below-or zero p q h = omega arith
count_below-or (suc n) p q h = ground (arith, h n, count_below-or n p q h)

count_below-within :
    (n : ℕ) (s : Span)
    → s.start ≤ s.end
    → count_below n (λ x. within x s) ≡ (if ltb s.end n then s.end - s.start + 1 else n - s.start)
unfolding count_below
count_below-within zero s h = ground arith
count_below-within (suc n) s h = ground (arith, count_below-within n s h)

covered_early :
    (size lo x : ℕ) (ss : List Span) → AreApart size lo ss → x < lo → covered x ss ≡ false
unfolding covered
covered_early size lo x [] h l = refl
covered_early size lo x (s ∷ ss) h l = ground (arith, covered_early size (s.end + 2) x ss)

within-apart :
    (size x : ℕ) (s : Span) (ss : List Span)
    → AreApart size (s.end + 2) ss
    → (within x s && covered x ss) ≡ false
within-apart size x s ss h = ground (arith, covered_early size (s.end + 2) x ss h)

pub count_below-false : (n : ℕ) → count_below n (λ _. false) ≡ 0
unfolding count_below
count_below-false zero = refl
count_below-false (suc n) = omega (arith, count_below-false n)

count_below-covered :
    (size lo : ℕ) (ss : List Span)
    → AreApart size lo ss
    → count_below size (λ x. covered x ss) ≡ delivered_bytes ss
unfolding delivered_bytes covered
count_below-covered size lo [] h = count_below-false size
count_below-covered size lo (s ∷ ss) h = ground (
  arith,
  count_below-or size (λ x. within x s) (λ x. covered x ss) (λ x. within-apart size x s ss h.3),
  count_below-within size s h.1,
  count_below-covered size (s.end + 2) ss h.3,
)

-- The bytes counted for a merged list are the bytes of the file that some given range covers, each
-- counted once.
pub delivered_bytes-merge_ranges :
    (rs : List DeliveryRange) (size : ℕ)
    → delivered_bytes (merge_ranges rs (pos size)) ≡ count_below size (λ x. reported x rs)
delivered_bytes-merge_ranges rs size =
    let (apart, same) = merge_ranges_lem rs size in
    sym (count_below-covered size 0 (merge_ranges rs (pos size)) apart)
    ∙ count_below-eq size _ _ same

pub count_below-le : (n : ℕ) (p : ℕ → Bool) → count_below n p ≤ n
unfolding count_below
count_below-le zero p = omega arith
count_below-le (suc n) p = ground (arith, count_below-le n p)

pub all_of_count : (n : ℕ) (p : ℕ → Bool) → count_below n p ≡ n → (x : ℕ) → x < n → p x ≡ true
unfolding count_below
all_of_count zero p e x h = absurd (omega arith)
all_of_count (suc n) p e x h = elim (dec_lt x n) [
  | yes l ↦ all_of_count n p (ground (arith, count_below-le n p)) x l
  | no m ↦ let here : x ≡ n = omega arith in rw here (ground (arith, count_below-le n p))
]

pub count_of_all : (n : ℕ) (p : ℕ → Bool) → ((x : ℕ) → x < n → p x ≡ true) → count_below n p ≡ n
unfolding count_below
count_of_all zero p h = refl
count_of_all (suc n) p h =
    ground (arith, h n (omega arith), count_of_all n p (λ x l. h x (omega arith)))

abbrev IsWhole : ℕ → List Span → Type 0
IsWhole n ss = ss ≡ record { start = 0; end = n - 1 } ∷ []

delivered_bytes-room :
    (size lo : ℕ) (s : Span) (ss : List Span)
    → AreApart size lo (s ∷ ss)
    → delivered_bytes (s ∷ ss) + lo ≤ size
unfolding delivered_bytes
delivered_bytes-room size lo s [] h = omega arith
delivered_bytes-room size lo s (t ∷ ts) h =
    omega (arith, delivered_bytes-room size (s.end + 2) t ts h.3)

IsWhole-of_full :
    (size : ℕ) (ss : List Span)
    → AreApart size 0 ss
    → 0 < size
    → delivered_bytes ss ≡ size
    → IsWhole size ss
unfolding delivered_bytes
IsWhole-of_full size [] h z e = absurd (omega arith)
IsWhole-of_full size (s ∷ []) h z e = ground arith
IsWhole-of_full size (s ∷ t ∷ ts) h z e =
    absurd (omega (arith, delivered_bytes-room size (s.end + 2) t ts h.3))

-- The merged list is the single range of the whole file exactly when every byte was reported.
pub merge_ranges_whole :
    (rs : List DeliveryRange) (size : ℕ)
    → 0 < size
    → (merge_ranges rs (pos size) ≡ record { start = 0; end = size - 1 } ∷ [])
      ↔ ((x : ℕ) → x < size → reported x rs ≡ true)
unfolding delivered_bytes
merge_ranges_whole rs size z =
    let bytes = delivered_bytes-merge_ranges rs size in
    (
      λ e. all_of_count size _ (omega (arith, sym bytes, ap delivered_bytes e)),
      λ h. IsWhole-of_full size _ (merge_ranges_lem rs size).0 z (bytes ∙ count_of_all size _ h),
    )
