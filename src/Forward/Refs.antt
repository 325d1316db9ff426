-- ===== src/Forward/Refs.antt =====
-- validRef of application/forward.rules/rules.go, and the functions of Go's strings and strconv that it
-- and PrepareConfig call. A text is the list of its code points.
use Prim.Native.String.{String}
use text.Mathlib.Text.{◌==◌ as str_eq}
use tdl.Prelude.{
  ℕ, zero, suc, ◌+◌, ◌-◌, ◌*◌, ◌/◌, ◌%◌, ◌^◌, Bool, true, false, ◌&&◌, ◌||◌, Option, none, some,
  List, [], ◌∷◌, if◌then◌else◌, leb, ltb, ◌==◌,
}
use tdl.Prelude.Text.{codes, same_codes}
use tdl.Prelude.Int.{ℤ, pos, negsuc}

-- strings.Split by one byte: at least one part.
abbrev pub add_to_first : ℕ → List (List ℕ) → List (List ℕ)
add_to_first c [] = (c ∷ []) ∷ []
add_to_first c (part ∷ parts) = (c ∷ part) ∷ parts

unfoldable pub split : ℕ → List ℕ → List (List ℕ)
split by [] = [] ∷ []
split by (c ∷ cs) = let rest = split by cs in if c == by then [] ∷ rest else add_to_first c rest

-- The digits of strconv.ParseInt in base ten, `none` at any other character.
unfoldable pub digits_value : ℕ → List ℕ → Option ℕ
digits_value acc [] = some acc
digits_value acc (c ∷ cs) =
    let rest = digits_value (acc * 10 + (c - 48)) cs in if leb 48 c && leb c 57 then rest else none

unfoldable pub parse_digits : List ℕ → Option ℕ
parse_digits [] = none
parse_digits (c ∷ cs) = digits_value 0 (c ∷ cs)

-- The range of a signed 64-bit integer.
unfoldable pub in_range : Bool → Option ℕ → Option ℤ
in_range minus none = none
in_range false (some n) = if ltb n (2 ^ 63) then some (pos n) else none
in_range true (some zero) = some (pos 0)
in_range true (some (suc n)) = if ltb n (2 ^ 63) then some (negsuc n) else none

-- strconv.ParseInt(s, 10, 64): `none` is an error.
unfoldable pub parse_int : List ℕ → Option ℤ
parse_int [] = none
parse_int (c ∷ cs) =
    if c == 45
    then in_range true (parse_digits cs)
    else if c == 43
    then in_range false (parse_digits cs)
    else in_range false (parse_digits (c ∷ cs))

-- strconv.FormatInt of a positive number; a 64-bit number has at most 20 digits.
unfoldable pub format_digits : ℕ → ℕ → List ℕ → List ℕ
format_digits zero n acc = acc
format_digits (suc fuel) n acc =
    let rest = format_digits fuel (n / 10) ((48 + n % 10) ∷ acc) in if n == 0 then acc else rest

-- err == nil && id > 0 && FormatInt(id) == part
unfoldable pub is_canonical : List ℕ → Option ℤ → Bool
is_canonical part none = false
is_canonical part (some (negsuc n)) = false
is_canonical part (some (pos n)) = ltb 0 n && same_codes (format_digits 20 n []) part

unfoldable pub is_kind : List ℕ → Bool
is_kind part =
    same_codes part (codes "user")
    || same_codes part (codes "chat")
    || same_codes part (codes "channel")

unfoldable pub valid_parts : List (List ℕ) → Bool
valid_parts (kind ∷ id ∷ []) = is_kind kind && is_canonical id (parse_int id)
valid_parts [] = false
valid_parts (_ ∷ []) = false
valid_parts (_ ∷ _ ∷ _ ∷ _) = false

-- validRef
unfoldable pub valid_ref : String → Bool → Bool
valid_ref ref self = (self && str_eq ref "self") || valid_parts (split 58 (codes ref))
