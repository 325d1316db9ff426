-- ===== src/Delivery/Record/Tracks.antt =====
-- What one delivery report of app/http/delivery_status.go does to the record of a link.
use tdl.Prelude.{
  ℕ, zero, suc, ◌-◌, ◌<◌, ◌≡◌, ◌≢◌, ◌↔◌, refl, sym, ap, ◌∙◌, ◌⊎◌, inl, inr, Bool, true, false, ◌||◌,
  List, [], ◌∷◌, ◌++◌, map, arith, Bool-cases,
}
use tdl.Prelude.Int.{pos}
use tdl.Delivery.Ranges.{DeliveryRange, Span, merge_ranges}
use tdl.Delivery.Ranges.Union.{covered, reported, merge_ranges_lem}
use tdl.Delivery.Ranges.Count.{merge_ranges_whole}
use tdl.Delivery.Record.{
  Delivery, absent, present, link, updated, DeliveryField, reset_on_resize, no_delivery, to_range,
  is_whole_file, record_delivery, completion_time, add_ranges, DeliveryResult,
}

reported-append :
    (x : ℕ) (rs ss : List DeliveryRange) → reported x (rs ++ ss) ≡ (reported x rs || reported x ss)
unfolding reported
reported-append x [] ss = refl
reported-append x (r ∷ rs) ss = ground (arith, reported-append x rs ss)

reported-to_range : (x : ℕ) (ss : List Span) → reported x (map to_range ss) ≡ covered x ss
unfolding reported covered
reported-to_range x [] = refl
reported-to_range x (s ∷ ss) = ground (arith, reported-to_range x ss)

is_whole_file_iff :
    (size : ℕ) (ss : List Span)
    → (is_whole_file size ss ≡ true) ↔ (ss ≡ record { start = 0; end = size - 1 } ∷ [])
unfolding is_whole_file
is_whole_file_iff size [] = ground arith
is_whole_file_iff size (s ∷ []) = ground arith
is_whole_file_iff size (s ∷ t ∷ ts) = ground arith

-- The state of a link after the reports `history`, all of a file of `size` bytes: either the link is
-- complete and every byte was reported, or the stored ranges hold exactly the reported bytes and
-- some byte is missing.
pub record Tracks (size : ℕ) (history : List DeliveryRange) (d : Delivery) : Type 0 where
  pub sized : d.file_size ≡ pos size
  pub state :
      ((d.completed_at ≢ 0) × (d.ranges ≡ []) × ((x : ℕ) → x < size → reported x history ≡ true))
      ⊎ ((d.completed_at ≡ 0)
          × (¬ ((x : ℕ) → x < size → reported x history ≡ true))
          × ((x : ℕ) → x < size → reported x d.ranges ≡ reported x history))

resize_same : (size : ℕ) (d : Delivery) → d.file_size ≡ pos size → reset_on_resize size d ≡ d
unfolding reset_on_resize
resize_same size d e = ground (arith, e)

module _ (size : ℕ) (history ranges : List DeliveryRange) (nonempty : 0 < size) where
  abbrev merged_with : Delivery → List Span
  merged_with d = merge_ranges (d.ranges ++ ranges) (pos size)

  reported_step :
      (d : Delivery) (x : ℕ)
      → ((y : ℕ) → y < size → reported y d.ranges ≡ reported y history)
      → x < size
      → reported x (history ++ ranges) ≡ reported x (d.ranges ++ ranges)
  reported_step d x same l =
      reported-append x history ranges
      ∙ ap (λ b. b || reported x ranges) (sym (same x l))
      ∙ sym (reported-append x d.ranges ranges)

  Tracks-complete :
      (d : Delivery) (now : ℕ)
      → now ≢ 0
      → d.file_size ≡ pos size
      → ((y : ℕ) → y < size → reported y d.ranges ≡ reported y history)
      → is_whole_file size (merged_with d) ≡ true
      → Tracks size (history ++ ranges) (record d { completed_at = now; ranges = [] })
  Tracks-complete d now n sized same whole = record {
    sized = sized;
    state = inl (
      n,
      refl,
      λ x l.
          reported_step d x same l
          ∙ (merge_ranges_whole (d.ranges ++ ranges) size nonempty).0
              ((is_whole_file_iff size (merged_with d)).0 whole) x l,
    );
  }

  Tracks-partial :
      (d : Delivery)
      → d.file_size ≡ pos size
      → d.completed_at ≡ 0
      → ((y : ℕ) → y < size → reported y d.ranges ≡ reported y history)
      → is_whole_file size (merged_with d) ≡ false
      → Tracks size (history ++ ranges) (record d { ranges = map to_range (merged_with d) })
  Tracks-partial d sized open_ same whole = record {
    sized = sized;
    state = inr (
      open_,
      λ all.
          let found = (is_whole_file_iff size (merged_with d)).1 (
            (merge_ranges_whole (d.ranges ++ ranges) size nonempty).1
              (λ x l. sym (reported_step d x same l) ∙ all x l)) in
          cc,
      λ x l.
          reported-to_range x (merged_with d)
          ∙ (merge_ranges_lem (d.ranges ++ ranges) size).1 x l
          ∙ sym (reported_step d x same l),
    );
  }

-- An empty file misses no byte.
missing_byte : {P : ℕ → Type 0} (size : ℕ) → ¬ ((x : ℕ) → x < size → P x) → 0 < size
missing_byte zero missing = absurd (missing (λ x l. absurd (omega (arith, l))))
missing_byte (suc size) missing = omega arith

add_ranges-Tracks :
    (size : ℕ) (history ranges : List DeliveryRange) (now : ℕ) (flag : Bool) (d : Delivery)
    (field : DeliveryField)
    → now ≢ 0
    → Tracks size history d
    → (d.completed_at ≢ 0 → field ≡ present d)
    → (d' : Delivery) × (flag' : Bool) × (complete : Bool) × (add_ranges size ranges now flag d
          field
        ≡ updated (link (present d') flag') complete)
      × Tracks size (history ++ ranges) d'
unfolding add_ranges
add_ranges-Tracks size history ranges now flag d field n h kept = elim h.state [
  | inl (done, none_left, all) ↦ (
    d,
    flag,
    false,
    ground (arith, kept done),
    record {
      sized = h.sized;
      state = inl (
        done,
        none_left,
        λ x l. reported-append x history ranges ∙ ap (λ b. b || reported x ranges) (all x l),
      );
    },
  )
  | inr (open_, missing, same) ↦
      let z = missing_byte size missing in
      elim (Bool-cases (is_whole_file size (merge_ranges (d.ranges ++ ranges) (pos size)))) [
        | inl whole ↦ (
          record d { completed_at = now; ranges = [] },
          true,
          true,
          ground arith,
          Tracks-complete size history ranges z d now n h.sized same whole,
        )
        | inr part ↦ (
          record d { ranges = map to_range (merge_ranges (d.ranges ++ ranges) (pos size)) },
          flag,
          false,
          ground (arith, z),
          Tracks-partial size history ranges z d h.sized open_ same part,
        )
      ]
]

-- The first report of an empty file completes it.
add_ranges-empty_file :
    (ranges : List DeliveryRange) (now : ℕ) (flag : Bool)
    → now ≢ 0
    → (d' : Delivery) × (flag' : Bool) × (complete : Bool) × (add_ranges 0 ranges now flag
          (reset_on_resize 0 no_delivery)
          absent
        ≡ updated (link (present d') flag') complete)
      × Tracks 0 ranges d'
unfolding add_ranges reset_on_resize
add_ranges-empty_file ranges now flag n = (
  record { file_size = pos 0; ranges = []; completed_at = now },
  true,
  true,
  ground arith,
  record { sized = refl; state = inl (n, refl, λ x l. absurd (omega (arith, l))) },
)

fresh_open : (size : ℕ) → (reset_on_resize size no_delivery).completed_at ≡ 0
unfolding reset_on_resize
fresh_open size = ground arith

Tracks-no_delivery : (size : ℕ) → 0 < size → Tracks size [] (reset_on_resize size no_delivery)
unfolding reset_on_resize reported
Tracks-no_delivery size z = record {
  sized = refl;
  state = inr (fresh_open size, λ all. cc (all 0 z), ground arith);
}

completion_time_nonzero :
    (completed_at clock : ℕ) → clock ≢ 0 → completion_time completed_at clock ≢ 0
unfolding completion_time
completion_time_nonzero completed_at clock n = ground (arith, n)

-- The record of a link after a report, and the outcome of the report.
abbrev pub Recorded : ℕ → List DeliveryRange → DeliveryResult → Type 0
Recorded size history r =
    (d : Delivery) × (flag : Bool) × (complete : Bool) × (r
      ≡ updated (link (present d) flag) complete)
    × Tracks size history d

pub record_delivery-first :
    (size : ℕ) (ranges : List DeliveryRange) (completed_at clock : ℕ) (flag : Bool)
    → clock ≢ 0
    → Recorded size ranges (record_delivery (pos size) ranges completed_at clock (link absent flag))
unfolding record_delivery
record_delivery-first zero ranges completed_at clock flag n =
    add_ranges-empty_file ranges (completion_time completed_at clock) flag
      (completion_time_nonzero completed_at clock n)
record_delivery-first (suc size) ranges completed_at clock flag n =
    add_ranges-Tracks (suc size) [] ranges (completion_time completed_at clock) flag
      (reset_on_resize (suc size) no_delivery) absent (completion_time_nonzero completed_at clock n)
      (Tracks-no_delivery (suc size) (omega arith)) (λ done. absurd (done (fresh_open (suc size))))

pub record_delivery-again :
    (size : ℕ) (history ranges : List DeliveryRange) (completed_at clock : ℕ) (flag : Bool)
    (d : Delivery)
    → clock ≢ 0
    → Tracks size history d
    → Recorded size
        (history ++ ranges)
        (record_delivery (pos size) ranges completed_at clock (link (present d) flag))
unfolding record_delivery
record_delivery-again size history ranges completed_at clock flag d n h =
    let time = completion_time completed_at clock in
    let (d', flag', complete, e, t) =
      add_ranges-Tracks size history ranges time flag d (present d)
        (completion_time_nonzero completed_at clock n) h (λ _. refl) in
    (
      d',
      flag',
      complete,
      ap (λ (x : Delivery). add_ranges size ranges time flag x (present d))
            (resize_same size d h.sized)
          ∙ e,
      t,
    )
