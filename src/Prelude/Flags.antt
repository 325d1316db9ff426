-- ===== src/Prelude/Flags.antt =====
-- Maps of flags with texts as keys, as the lists of their true keys.
use Prim.Native.String.{String}
use Prim.Native.Nat.{ℕ, suc, ◌≤◌, ◌<◌}
use text.Mathlib.Text.{◌==◌ as str_eq}
use text.Mathlib.TextEquality.{eq_iff}
use mathlib.Core.Path.{◌≡◌, refl, subst}
use mathlib.Core.Logic.{◌⊎◌, inl, inr}
use mathlib.Core.Bool.{Bool, true, false, ◌||◌}
use mathlib.Core.List.{List, [], ◌∷◌}
use native.Mathlib.Omega.{arith}
use tdl.Prelude.Tests.{Bool-cases, if◌then◌else◌}
use tdl.Prelude.Lists.{length}

-- Whether a map of flags has `x`.
unfoldable pub has : String → List String → Bool
has x [] = false
has x (y ∷ ys) = str_eq x y || has x ys

pub has_self : (x : String) (ys : List String) → has x (x ∷ ys) ≡ true
unfolding has
has_self x ys = ground (arith, eq_iff x x)

pub has_later : (x y : String) (ys : List String) → has x ys ≡ true → has x (y ∷ ys) ≡ true
unfolding has
has_later x y ys h = ground arith

pub has_cons :
    (x y : String) (ys : List String) → has x (y ∷ ys) ≡ true → (x ≡ y) ⊎ (has x ys ≡ true)
unfolding has
has_cons x y ys h = ground (arith, eq_iff x y)

pub has_nil : (y : String) → has y [] ≡ true → ⊥
unfolding has
has_nil y h = ground (arith, h)

-- How many of the keys have no flag: a search that flags what it enters has as many levels left.
unfoldable pub room : List String → List String → ℕ
room visiting [] = 0
room visiting (s ∷ ss) = if has s visiting then room visiting ss else suc (room visiting ss)

pub room_nil : (ss : List String) → room [] ss ≡ length ss
unfolding room has
room_nil [] = refl
room_nil (s ∷ ss) = ground (arith, room_nil ss)

pub room_le :
    (source : String) (visiting ss : List String) → room (source ∷ visiting) ss ≤ room visiting ss
unfolding room
room_le source visiting [] = ground arith
room_le source visiting (s ∷ ss) = elim (Bool-cases (has s visiting)) [
  | inl old ↦ ground (arith, room_le source visiting ss, has_later s source visiting old, old)
  | inr new ↦ ground (arith, room_le source visiting ss, new)
]

pub room_lt :
    (source : String) (visiting ss : List String)
    → has source visiting ≡ false
    → has source ss ≡ true
    → room (source ∷ visiting) ss < room visiting ss
unfolding room
room_lt source visiting [] free k = absurd (has_nil source k)
room_lt source visiting (s ∷ ss) free k = elim (has_cons source s ss k) [
  | inl same ↦
      let mine : has s (source ∷ visiting) ≡ true =
        subst (λ z. has z (source ∷ visiting) ≡ true) same (has_self source visiting) in
      let free' : has s visiting ≡ false = subst (λ z. has z visiting ≡ false) same free in
      ground (arith, room_le source visiting ss, mine, free')
  | inr deeper ↦
      let ih = room_lt source visiting ss free deeper in
      elim (Bool-cases (has s visiting)) [
        | inl old ↦ ground (arith, ih, has_later s source visiting old, old)
        | inr new ↦ ground (arith, ih, new)
      ]
]

pub smaller : (fuel a b : ℕ) → a < suc fuel → b < a → b < fuel
smaller fuel a b h k = omega arith
