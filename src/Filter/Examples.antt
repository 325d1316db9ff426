-- ===== src/Filter/Examples.antt =====
-- The filter of application/filter.rules/filter.go on a file, with the lower case of ASCII.
use tdl.Prelude.{
  ℕ, ◌+◌, ◌≡◌, ◌↔◌, ◌&&◌, refl, true, false, some, [], ◌∷◌, arith, leb, if◌then◌else◌,
}
use tdl.Prelude.Int.{pos, negsuc}
use tdl.Prelude.Text.{codes, same_codes, trim_left, trim_right, is_blank, is_space}
use tdl.Filter.{
  Settings, prepare_filter, should_handle, extensions, mb_to_bytes, normalize_extension, find_ext,
  has_ext, allowed, extension_excluded, size_excluded,
}
use tdl.Filter.Decision.{Passes, clamped, should_handle-Passes, mb_to_bytes-clamped}

abbrev lower : ℕ → ℕ
lower c = if leb 65 c && leb c 90 then c + 32 else c

abbrev videos : Settings
videos = record { include = codes ".mp4" ∷ codes ".mkv" ∷ []; exclude = []; min = 0; max = 2097152 }

videos_built :
    prepare_filter lower (codes "mp4" ∷ codes " .MKV" ∷ []) [] (pos 0) (pos 2) ≡ some videos
unfolding prepare_filter extensions normalize_extension trim_left trim_right is_blank is_space
    mb_to_bytes
videos_built = refl

video_allowed :
    should_handle lower (some videos) (codes "a/b.c/film.MP4") (pos 2097152) ≡ (true, allowed)
unfolding should_handle normalize_extension trim_left trim_right is_blank is_space find_ext has_ext
    same_codes
video_allowed = refl

video_too_large :
    should_handle lower (some videos) (codes "film.mp4") (pos 2097153) ≡ (false, size_excluded)
unfolding should_handle normalize_extension trim_left trim_right is_blank is_space find_ext has_ext
    same_codes
video_too_large = refl

picture_excluded :
    should_handle lower (some videos) (codes "film.mp4/x") (pos 1) ≡ (false, extension_excluded)
unfolding should_handle normalize_extension trim_left trim_right is_blank is_space find_ext has_ext
    same_codes
picture_excluded = refl

should_handle-Passes_example :
    ((should_handle lower (some videos) (codes "film.mp4") (pos 7)).0 ≡ true)
    ↔ Passes lower (codes "mp4" ∷ codes " .MKV" ∷ []) [] (pos 0) (pos 2) (codes "film.mp4") 7
should_handle-Passes_example =
    should_handle-Passes lower (codes "mp4" ∷ codes " .MKV" ∷ []) [] (pos 0) (pos 2) videos
      (codes "film.mp4") 7 videos_built (ground arith)

mb_to_bytes-clamped_example :
    (mb_to_bytes (pos 8796093022208) ≡ clamped 9223372036854775808)
    × (mb_to_bytes (negsuc 8796093022208) ≡ 0)
mb_to_bytes-clamped_example = mb_to_bytes-clamped 8796093022208
