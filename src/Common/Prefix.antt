-- ===== src/Common/Prefix.antt =====
-- `str::starts_with`, slicing, `str::split` and `str::contains`, over the texts of the library.
use Prim.Native.Nat.{ℕ}
use Prim.Native.Char.{code}
use Prim.Native.String.{String, ◌++◌, len, slice}
use mathlib.Core.Path.{◌≡◌, refl, subst}
use mathlib.Core.Bool.{Bool, true, false}
use mathlib.Core.Option.{some, none}
use mathlib.Core.List.{List, [], ◌∷◌}
use text.Mathlib.Text.{starts_with, find?}
use text.Mathlib.TextEquality.{starts_with_iff}
use text.Mathlib.TextPositions.{len-append, slice-append_right}
use model2api.Common.Tests.{nat_eq, if◌then◌else◌}

abbrev pub contains : String → String → Bool
contains s t = elim (find? s t) [ none ↦ false | some i ↦ true ]

-- `s[p.len()..]`
unfoldable pub after : String → String → String
after s p = slice s (len p) (len s)

pub append-after : (s p : String) → starts_with s p ≡ true → p ++ after s p ≡ s
unfolding after
append-after s p h =
    let (r, e) = (starts_with_iff s p).0 h in
    subst (λ v. p ++ slice v (len p) (len v) ≡ v) e
      (rw (len-append p r, slice-append_right p r) refl)

in_front : String → List String → List String
in_front c [] = c ∷ []
in_front c (p ∷ ps) = (c ++ p) ∷ ps

-- `s.split(char)`
unfoldable pub split_on : ℕ → String → List String
unfolding in_front
split_on c String.[] = "" ∷ []
split_on c (String.◌∷◌ d s) =
    let rest = split_on c s in
    if nat_eq (code d) c then "" ∷ rest else in_front (String.◌∷◌ d "") rest
