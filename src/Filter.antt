-- ===== src/Filter.antt =====
-- application/filter.rules/filter.go: which files are downloaded, by extension and size. A text is the
-- list of its code points. `lower` is unicode.ToLower of one code point, a table of Go's library.
pub mod Decision
pub mod Examples
use tdl.Prelude.{
  ℕ, zero, suc, ◌*◌, ◌-◌, ◌^◌, ◌/◌, Bool, true, false, not, ◌&&◌, ◌||◌, Option, none, some, List,
  [], ◌∷◌, map, if◌then◌else◌, ltb, ◌==◌,
}
use tdl.Prelude.Int.{ℤ, pos, negsuc, ltb_ℤ}
use tdl.Prelude.Text.{same_codes, trim_left, trim_right}

-- The largest 64-bit integer.
abbrev pub max_int64 : ℕ
max_int64 = 9223372036854775807

-- mbToBytes
unfoldable pub mb_to_bytes : ℤ → ℕ
mb_to_bytes (negsuc _) = 0
mb_to_bytes (pos mb) =
    if mb == 0 then 0 else if ltb (max_int64 / 1048576) mb then max_int64 else mb * 1048576

-- The settings: the extensions in order, and the bounds in bytes.
pub record Settings : Type 0 where
  pub include : List (List ℕ)
  pub exclude : List (List ℕ)
  pub min : ℕ
  pub max : ℕ

-- filepath.Ext, on a system whose separator is `/`: the text from its last dot, unless a slash follows.
abbrev pub has_slash : List ℕ → Bool
has_slash [] = false
has_slash (c ∷ cs) = c == 47 || has_slash cs

unfoldable pub find_ext : List ℕ → Option (List ℕ)
find_ext [] = none
find_ext (c ∷ cs) = elim (find_ext cs) [
  | some ext ↦ some ext
  | none ↦ if c == 46 && not (has_slash cs) then some (c ∷ cs) else none
]

abbrev pub ext_or_empty : Option (List ℕ) → List ℕ
ext_or_empty none = []
ext_or_empty (some ext) = ext

-- A set of extensions is the list of its members.
unfoldable pub has_ext : List ℕ → List (List ℕ) → Bool
has_ext ext [] = false
has_ext ext (e ∷ es) = same_codes e ext || has_ext ext es

abbrev pub is_none : List (List ℕ) → Bool
is_none [] = true
is_none (_ ∷ _) = false

-- ports.Reason
pub data Reason : Type 0 where
  allowed : Reason
  extension_excluded : Reason
  size_excluded : Reason

-- The dot of normalizeExtension.
abbrev pub with_dot : List ℕ → List ℕ
with_dot [] = []
with_dot (c ∷ cs) = if c == 46 then c ∷ cs else 46 ∷ c ∷ cs

module _ (lower : ℕ → ℕ) where
  -- normalizeExtension
  unfoldable pub normalize_extension : List ℕ → List ℕ
  normalize_extension value = with_dot (map lower (trim_right (trim_left value)))

  -- extensions
  unfoldable pub extensions : List (List ℕ) → List (List ℕ)
  extensions [] = []
  extensions (v ∷ vs) = normalize_extension v ∷ extensions vs

  -- PrepareConfig on the decoded fields; `none` is the error.
  unfoldable pub prepare_filter : List (List ℕ) → List (List ℕ) → ℤ → ℤ → Option Settings
  unfolding extensions mb_to_bytes
  prepare_filter include exclude min_mb max_mb =
      if ltb_ℤ (pos 0) max_mb && ltb_ℤ max_mb min_mb
      then none
      else some (record {
        include = extensions include;
        exclude = extensions exclude;
        min = mb_to_bytes min_mb;
        max = mb_to_bytes max_mb;
      })

  -- ShouldHandle
  unfoldable pub should_handle : Option Settings → List ℕ → ℤ → Bool × Reason
  unfolding normalize_extension find_ext has_ext
  should_handle none name size = (false, size_excluded)
  should_handle (some s) name size =
      let ext = normalize_extension (ext_or_empty (find_ext name)) in
      if not (is_none s.include) && not (has_ext ext s.include)
      then (false, extension_excluded)
      else if has_ext ext s.exclude
      then (false, extension_excluded)
      else if (ltb 0 s.min && ltb_ℤ size (pos s.min)) || (ltb 0 s.max && ltb_ℤ (pos s.max) size)
      then (false, size_excluded)
      else (true, allowed)
