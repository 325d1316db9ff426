-- ===== src/Delivery/Record.antt =====
-- `recordHTTPDelivery` and `ParseDownloadTaskHTTPStatus` of app/http/delivery_status.go: the callback
-- that updates the JSON record of one link. A record is kept decoded: `malformed` is a text that
-- does not decode. A time is a number, and 0 is the zero time.
pub mod Tracks
pub mod History
use tdl.Prelude.{
  ℕ, zero, suc, ◌-◌, Bool, true, false, not, ◌&&◌, ◌||◌, List, [], ◌∷◌, ◌++◌, map, ◌==◌,
  if◌then◌else◌, length,
}
use tdl.Prelude.Int.{ℤ, pos, negsuc, pos_part, neg_part}
use tdl.Delivery.Ranges.{DeliveryRange, Span, merge_ranges, delivered_bytes}

-- persistentHTTPDelivery
pub record Delivery : Type 0 where
  pub file_size : ℤ
  pub ranges : List DeliveryRange
  pub completed_at : ℕ

-- The field `http_delivery` of a record.
pub data DeliveryField : Type 0 where
  absent undecodable : DeliveryField
  present : Delivery → DeliveryField

-- A stored link: the two fields that the callback reads or writes, and whether the text decodes.
pub data StoredLink : Type 0 where
  malformed : StoredLink
  link : DeliveryField → Bool → StoredLink

pub data DeliveryError : Type 0 where
  invalid_file_size decode_task decode_delivery : DeliveryError

-- `updated data complete`, or the error that the callback returns.
pub data DeliveryResult : Type 0 where
  updated : StoredLink → Bool → DeliveryResult
  failed : DeliveryError → DeliveryResult

abbrev pub no_delivery : Delivery
no_delivery = record { file_size = pos 0; ranges = []; completed_at = 0 }

abbrev pub eq_ℤ : ℤ → ℤ → Bool
eq_ℤ a b = pos_part a == pos_part b && neg_part a == neg_part b

abbrev is_empty {ℓ} : {A : Type ℓ} → List A → Bool
is_empty [] = true
is_empty (_ ∷ _) = false

abbrev pub to_range : Span → DeliveryRange
to_range s = record { start = pos s.start; end = pos s.end }

-- The test that one range covers the whole file.
is_whole_file : ℕ → List Span → Bool
is_whole_file size (s ∷ []) = s.start == 0 && s.end == size - 1
is_whole_file size _ = false

-- Progress of another file size is forgotten.
reset_on_resize : ℕ → Delivery → Delivery
reset_on_resize size d =
    let kept =
      if not (eq_ℤ d.file_size (pos size)) && (not (is_empty d.ranges) || not (d.completed_at == 0))
      then no_delivery
      else d in
    record kept { file_size = pos size }

-- The callback from the test of `CompletedAt` on; `d` is the delivery after `reset_on_resize`, and
-- `field` the stored one.
add_ranges : ℕ → List DeliveryRange → ℕ → Bool → Delivery → DeliveryField → DeliveryResult
unfolding is_whole_file
add_ranges size ranges now downloaded d field =
    let merged = merge_ranges (d.ranges ++ ranges) (pos size) in
    let complete = size == 0 || is_whole_file size merged in
    if not (d.completed_at == 0)
    then updated (link field downloaded) false
    else if complete
    then updated (link (present (record d { completed_at = now; ranges = [] })) true) true
    else updated (link (present (record d { ranges = map to_range merged })) downloaded) false

-- A completion time that is not given is that of the clock.
unfoldable pub completion_time : ℕ → ℕ → ℕ
completion_time completed_at clock = if completed_at == 0 then clock else completed_at

-- recordHTTPDelivery of the ranges, for a completion time and the time on the clock.
unfoldable pub record_delivery : ℤ → List DeliveryRange → ℕ → ℕ → StoredLink → DeliveryResult
unfolding add_ranges reset_on_resize completion_time
record_delivery (negsuc _) ranges completed_at clock stored = failed invalid_file_size
record_delivery (pos size) ranges completed_at clock malformed = failed decode_task
record_delivery (pos size) ranges completed_at clock (link undecodable downloaded) =
    failed decode_delivery
record_delivery (pos size) ranges completed_at clock (link absent downloaded) =
    add_ranges size ranges (completion_time completed_at clock) downloaded
      (reset_on_resize size no_delivery) absent
record_delivery (pos size) ranges completed_at clock (link (present d) downloaded) =
    add_ranges size ranges (completion_time completed_at clock) downloaded (reset_on_resize size d)
      (present d)

-- DownloadTaskHTTPStatus
pub record HttpStatus : Type 0 where
  pub completed : Bool
  pub completed_at : ℕ
  pub delivered_bytes : ℤ
  pub file_size : ℤ

pub data StatusResult : Type 0 where
  status : HttpStatus → StatusResult
  undecodable_status : StatusResult

read_status : Delivery → HttpStatus
read_status d =
    let completed = not (d.completed_at == 0) in
    record {
      completed = completed;
      completed_at = d.completed_at;
      delivered_bytes =
          if completed
          then d.file_size
          else pos (delivered_bytes (merge_ranges d.ranges d.file_size));
      file_size = d.file_size;
    }

-- ParseDownloadTaskHTTPStatus
unfoldable pub parse_status : StoredLink → StatusResult
unfolding read_status
parse_status malformed = undecodable_status
parse_status (link undecodable downloaded) = undecodable_status
parse_status (link absent downloaded) = status (read_status no_delivery)
parse_status (link (present d) downloaded) = status (read_status d)
