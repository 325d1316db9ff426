-- ===== src/Delivery/Examples.antt =====
-- Tests of the delivery accounting, and the theorems at concrete inputs.
use tdl.Prelude.{inl, ℕ, ◌≡◌, ◌↔◌, ◌<◌, refl, true, false, List, [], ◌∷◌, arith}
use tdl.Prelude.Int.{pos, negsuc}
use tdl.Delivery.Ranges.{DeliveryRange, merge_ranges, delivered_bytes}
use tdl.Delivery.Ranges.Union.{covered, reported, AreApart, merge_ranges_lem}
use tdl.Delivery.Ranges.Count.{count_below, delivered_bytes-merge_ranges, merge_ranges_whole}
use tdl.Delivery.Record.{record_delivery, link, absent, HttpStatus, status, parse_status}
use tdl.Delivery.Record.History.{
  Report, ranges_of, Describes, run_reports, parse_status-run_reports,
}

-- 6-9, 0-3, 4-20 and -5-1 of a file of 10 bytes.
abbrev shuffled : List DeliveryRange
shuffled =
    record { start = pos 6; end = pos 9 }
    ∷ record { start = pos 0; end = pos 3 }
    ∷ record { start = pos 8; end = pos 20 }
    ∷ record { start = negsuc 4; end = pos 1 }
    ∷ []

merge_shuffled :
    merge_ranges shuffled (pos 10)
    ≡ record { start = 0; end = 3 } ∷ record { start = 6; end = 9 } ∷ []
unfolding merge_ranges
merge_shuffled = refl

merge_ranges_lem_example :
    AreApart 10 0 (merge_ranges shuffled (pos 10))
    × ((x : ℕ) → x < 10 → covered x (merge_ranges shuffled (pos 10)) ≡ reported x shuffled)
merge_ranges_lem_example = merge_ranges_lem shuffled 10

delivered_bytes-merge_ranges_example :
    delivered_bytes (merge_ranges shuffled (pos 10)) ≡ count_below 10 (λ x. reported x shuffled)
delivered_bytes-merge_ranges_example = delivered_bytes-merge_ranges shuffled 10

merge_ranges_whole_example :
    (merge_ranges shuffled (pos 10) ≡ record { start = 0; end = 9 } ∷ [])
    ↔ ((x : ℕ) → x < 10 → reported x shuffled ≡ true)
merge_ranges_whole_example = merge_ranges_whole shuffled 10 (omega arith)

-- The first report gives its completion time, the second leaves it to the clock.
abbrev two_reports : List Report
two_reports =
    record { ranges = shuffled; completed_at = 70; clock = 77 }
    ∷ record { ranges = record { start = pos 4; end = pos 5 } ∷ []; completed_at = 0; clock = 80 }
    ∷ []

two_reports_run :
    parse_status (run_reports (pos 10) two_reports (link absent false))
    ≡ status (record {
      completed = true;
      completed_at = 80;
      delivered_bytes = pos 10;
      file_size = pos 10;
    })
unfolding parse_status run_reports record_delivery merge_ranges
two_reports_run = refl

parse_status-run_reports_example :
    (s : HttpStatus) × (parse_status (run_reports (pos 10) two_reports (link absent false))
      ≡ status s)
    × Describes 10 (ranges_of two_reports) s
parse_status-run_reports_example =
    parse_status-run_reports 10 two_reports false (inl (omega arith))
      (omega arith, (omega arith, tt))
