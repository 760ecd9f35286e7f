-- ===== src/Common/Text.antt =====
-- `str::trim` over the code points of a text.
use Prim.Native.Nat.{ℕ}
use Prim.Native.Char.{Char, code}
use Prim.Native.String.{String, ◌++◌}
use mathlib.Core.Path.{◌≡◌, refl}
use mathlib.Core.Bool.{Bool, ◌&&◌, ◌||◌}
use mathlib.Core.Logic.{inl, inr}
use model2api.Common.Tests.{leb, nat_eq, ◌==◌, if◌then◌else◌, Bool-cases}

-- char::is_whitespace: the code points with the Unicode property White_Space.
pub is_whitespace : ℕ → Bool
is_whitespace c =
    leb 9 c && leb c 13
    || nat_eq c 32
    || nat_eq c 133
    || nat_eq c 160
    || nat_eq c 5760
    || leb 8192 c && leb c 8202
    || nat_eq c 8232
    || nat_eq c 8233
    || nat_eq c 8239
    || nat_eq c 8287
    || nat_eq c 12288

pub trim_start : String → String
trim_start String.[] = ""
trim_start (String.◌∷◌ c s) =
    let rest = trim_start s in if is_whitespace (code c) then rest else String.◌∷◌ c s

unfoldable pub trim_end : String → String
trim_end String.[] = ""
trim_end (String.◌∷◌ c s) =
    let rest = trim_end s in if is_whitespace (code c) && rest == "" then "" else String.◌∷◌ c rest

unfoldable pub trim : String → String
unfolding trim_start trim_end is_whitespace
trim s = trim_start (trim_end s)

-- `format!` of two texts.
abbrev pub append : String → String → String
append s t = s ++ t

-- str::replace of one character by a text.
unfoldable pub replace_char : ℕ → String → String → String
replace_char c t String.[] = ""
replace_char c t (String.◌∷◌ d s) =
    let rest = replace_char c t s in if nat_eq (code d) c then t ++ rest else String.◌∷◌ d rest

replace_test : replace_char b'-' "_" "pro-lite-x" ≡ "pro_lite_x"
unfolding replace_char
replace_test = refl

trim_test : trim " \t sk-1 2 \n" ≡ "sk-1 2"
unfolding trim
trim_test = refl

trim_end_idem : (s : String) → trim_end (trim_end s) ≡ trim_end s
unfolding trim_end
trim_end_idem String.[] = refl
trim_end_idem (String.◌∷◌ c s) = elim (Bool-cases (is_whitespace (code c) && trim_end s == "")) [
  | inl dropped ↦ rw dropped
  | inr kept ↦ rw kept (rw (trim_end_idem s) (rw kept))
]

-- What is left of a text with no space at its end has none either.
trim_end_tail :
    (c : Char) (s : String) → trim_end (String.◌∷◌ c s) ≡ String.◌∷◌ c s → trim_end s ≡ s
unfolding trim_end
trim_end_tail c s h = elim (Bool-cases (is_whitespace (code c) && trim_end s == "")) [
  | inl dropped ↦ let e : "" ≡ String.◌∷◌ c s = rw dropped at h in cc
  | inr kept ↦ let e : String.◌∷◌ c (trim_end s) ≡ String.◌∷◌ c s = rw kept at h in cc
]

trim_end-trim_start : (s : String) → trim_end s ≡ s → trim_end (trim_start s) ≡ trim_start s
unfolding trim_start
trim_end-trim_start String.[] h = h
trim_end-trim_start (String.◌∷◌ c s) h = elim (Bool-cases (is_whitespace (code c))) [
  | inl space ↦ rw space (trim_end-trim_start s (trim_end_tail c s h))
  | inr letter ↦ rw letter h
]

trim_start_idem : (s : String) → trim_start (trim_start s) ≡ trim_start s
unfolding trim_start
trim_start_idem String.[] = refl
trim_start_idem (String.◌∷◌ c s) = elim (Bool-cases (is_whitespace (code c))) [
  | inl space ↦ rw space (trim_start_idem s)
  | inr letter ↦ rw letter (rw letter)
]

pub trim_idem : (s : String) → trim (trim s) ≡ trim s
trim_idem s =
    unfold trim in
    rw (trim_end-trim_start (trim_end s) (trim_end_idem s)) (trim_start_idem (trim_end s))
