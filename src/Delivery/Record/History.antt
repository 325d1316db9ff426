-- ===== src/Delivery/Record/History.antt =====
-- Sequences of delivery reports of one file, recorded by app/http/delivery_status.go.
use tdl.Prelude.{
  ℕ, ◌<◌, ◌≡◌, ◌≢◌, ◌↔◌, refl, sym, ap, ◌∙◌, ◌⊎◌, inl, inr, Bool, true, List, [], ◌∷◌, ◌++◌, arith,
}
use mathlib.Core.List.{append-nil, append_assoc}
use tdl.Prelude.Int.{ℤ, pos}
use tdl.Delivery.Ranges.{DeliveryRange, merge_ranges, delivered_bytes}
use tdl.Delivery.Ranges.Union.{reported}
use tdl.Delivery.Ranges.Count.{
  count_below, count_below-eq, count_of_all, count_below-false, delivered_bytes-merge_ranges,
}
use tdl.Delivery.Record.{
  Delivery, absent, present, StoredLink, link, updated, failed, no_delivery, record_delivery,
  HttpStatus, status, read_status, parse_status,
}
use tdl.Delivery.Record.Tracks.{Tracks, record_delivery-first, record_delivery-again}

-- A report: its ranges, its completion time, 0 for none, and the time on the clock.
pub record Report : Type 0 where
  pub ranges : List DeliveryRange
  pub completed_at : ℕ
  pub clock : ℕ

-- Reports of one file in turn; a report that fails leaves the link as it was.
unfoldable pub run_reports : ℤ → List Report → StoredLink → StoredLink
run_reports size [] stored = stored
run_reports size (r ∷ later) stored =
    elim (record_delivery size r.ranges r.completed_at r.clock stored) [
      | updated stored' complete ↦ run_reports size later stored'
      | failed e ↦ run_reports size later stored
    ]

-- The clock never shows the zero time.
abbrev pub HasClock : List Report → Type 0
HasClock [] = Unit {0}
HasClock (r ∷ rs) = (r.clock ≢ 0) × HasClock rs

-- All ranges of the reports.
abbrev pub ranges_of : List Report → List DeliveryRange
ranges_of [] = []
ranges_of (r ∷ rs) = r.ranges ++ ranges_of rs

run_reports-Tracks :
    (size : ℕ) (reports : List Report) (history : List DeliveryRange) (d : Delivery) (flag : Bool)
    → HasClock reports
    → Tracks size history d
    → (d' : Delivery) × (flag' : Bool) × (run_reports (pos size) reports (link (present d) flag)
        ≡ link (present d') flag')
      × Tracks size (history ++ ranges_of reports) d'
unfolding run_reports
run_reports-Tracks size [] history d flag n h = (d, flag, refl, rw (append-nil history) h)
run_reports-Tracks size (r ∷ later) history d flag n h =
    let (d', flag', complete, e, t) =
      record_delivery-again size history r.ranges r.completed_at r.clock flag d n.0 h in
    let rest = run_reports-Tracks size later (history ++ r.ranges) d' flag' n.1 t in
    rw (e, run_reports) (rw append_assoc at rest)

-- What a status says of the bytes reported.
abbrev pub Describes : ℕ → List DeliveryRange → HttpStatus → Type 0
Describes size history s =
    ((s.completed ≡ true) ↔ ((x : ℕ) → x < size → reported x history ≡ true))
    × (s.delivered_bytes ≡ pos (count_below size (λ x. reported x history)))

read_status-Describes :
    (size : ℕ) (history : List DeliveryRange) (d : Delivery)
    → Tracks size history d
    → Describes size history (read_status d)
unfolding read_status
read_status-Describes size history d h = elim h.state [
  | inl (done, none_left, all) ↦ (
    (λ _. all, λ _. ground arith),
    ground (arith, h.sized, count_of_all size (λ x. reported x history) all),
  )
  | inr (open_, missing, same) ↦ (
    (λ completed. ground arith, λ all. absurd (missing all)),
    rw (open_, h.sized)
        (ap pos (
          delivered_bytes-merge_ranges d.ranges size
          ∙ count_below-eq size (λ x. reported x d.ranges) (λ x. reported x history) same)),
  )
]

Describes-absent : (size : ℕ) → 0 < size → Describes size [] (read_status no_delivery)
unfolding read_status reported merge_ranges delivered_bytes
Describes-absent size z = ((λ e. cc, λ all. all 0 z), ap pos (sym (count_below-false size)))

parse_status-run_some :
    (size : ℕ) (r : Report) (later : List Report) (flag : Bool)
    → HasClock (r ∷ later)
    → (s : HttpStatus) × (parse_status (run_reports (pos size) (r ∷ later) (link absent flag))
        ≡ status s)
      × Describes size (ranges_of (r ∷ later)) s
unfolding run_reports parse_status
parse_status-run_some size r later flag n =
    let (d, flag', complete, e, t) =
      record_delivery-first size r.ranges r.completed_at r.clock flag n.0 in
    let (d', flag'', run, t') = run_reports-Tracks size later r.ranges d flag' n.1 t in
    (
      read_status d',
      rw (e, run_reports) (ap parse_status run),
      read_status-Describes size (ranges_of (r ∷ later)) d' t',
    )

-- From a link with no delivery, after any reports of a file of `size` bytes, each with ranges, a
-- completion time (or none) and a clock of its own that is not the zero time, at least one of them
-- where the file is empty: the status reads as completed exactly when every byte of the file was
-- reported, and its delivered bytes count each reported byte of the file once.
pub parse_status-run_reports :
    (size : ℕ) (reports : List Report) (flag : Bool)
    → (0 < size) ⊎ (reports ≢ [])
    → HasClock reports
    → (s : HttpStatus) × (parse_status (run_reports (pos size) reports (link absent flag))
        ≡ status s)
      × Describes size (ranges_of reports) s
unfolding run_reports parse_status
parse_status-run_reports size [] flag (inl z) n =
    (read_status no_delivery, refl, Describes-absent size z)
parse_status-run_reports size [] flag (inr none_sent) n = absurd (none_sent refl)
parse_status-run_reports size (r ∷ later) flag _ n = parse_status-run_some size r later flag n
