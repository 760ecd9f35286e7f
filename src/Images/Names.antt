-- ===== src/Images/Names.antt =====
-- src/utils/helper.rs: the names of image models.
use Prim.Native.Char.{Char, code}
use Prim.Native.String.{char_at}
use model2api.Common.{
  String, Bool, false, ◌&&◌, Option, none, some, List, [], ◌∷◌, ◌==◌, if◌then◌else◌, trim, append,
  leb, elem, ◌-◌, is_some, ◌≡◌, refl,
}
use model2api.Common.Prefix.{after}
use model2api.Common.Sorting.{sort_by, text_lt}
use text.Mathlib.Text.{starts_with}
use model2api.Json.{Value, Host, str, null}

abbrev pub base_image_models : List String
base_image_models = "gpt-image-2" ∷ "codex-gpt-image-2" ∷ []

abbrev pub image_model_plan_types : List String
image_model_plan_types = "plus" ∷ "team" ∷ "pro" ∷ []

abbrev pub codex_image_model : String
codex_image_model = "codex-gpt-image-2"

value_to_string : Host → Value → String
value_to_string h (str s) = s
value_to_string h null = ""
value_to_string h v = h.print v

lower_char : Char → Char
lower_char c =
    if leb b'A' (code c) && leb (code c) b'Z'
    then char_at "abcdefghijklmnopqrstuvwxyz" (code c - b'A')
    else c

-- str::to_ascii_lowercase
to_ascii_lowercase : String → String
unfolding lower_char
to_ascii_lowercase String.[] = ""
to_ascii_lowercase (String.◌∷◌ c s) = String.◌∷◌ (lower_char c) (to_ascii_lowercase s)

-- The first plan that the name has in front.
plan_of : String → List String → Option String × Option String
plan_of normalized [] = (none, none)
plan_of normalized (plan ∷ plans) =
    let prefix = append plan "-" in
    let rest = plan_of normalized plans in
    if starts_with normalized prefix && after normalized prefix == codex_image_model
    then (some plan, some codex_image_model)
    else rest

unfoldable pub split_image_model : Host → Value → Option String × Option String
unfolding value_to_string to_ascii_lowercase plan_of after
split_image_model h model =
    let normalized = to_ascii_lowercase (trim (value_to_string h model)) in
    if normalized == ""
    then (none, none)
    else if elem normalized base_image_models
    then (none, some normalized)
    else plan_of normalized image_model_plan_types

unfoldable pub is_supported_image_model : Host → Value → Bool
is_supported_image_model h model = is_some (split_image_model h model).1

unfoldable pub is_codex_image_model : Host → Value → Bool
is_codex_image_model h model = elim (split_image_model h model).1 [
  | none ↦ false
  | some base ↦ base == codex_image_model
]

join : String → List String → String
join between [] = ""
join between (s ∷ []) = s
join between (s ∷ t ∷ ts) = append s (append between (join between (t ∷ ts)))

plan_models : List String → List String
plan_models [] = []
plan_models (plan ∷ plans) = append plan "-codex-gpt-image-2" ∷ plan_models plans

unfoldable pub supported_image_models_listing : String
unfolding join plan_models
supported_image_models_listing =
    join ", "
      (sort_by text_lt ("gpt-image-2" ∷ "codex-gpt-image-2" ∷ plan_models image_model_plan_types))

any_host : Host
any_host = record {
  print = λ v. "";
  lower = λ t. t;
  sha256_hex = λ t. t;
  parse_rfc3339 = λ t. none;
  parse_naive = λ t. none;
}

split_test :
    split_image_model any_host (str " Plus-Codex-GPT-image-2 ")
    ≡ (some "plus", some "codex-gpt-image-2")
unfolding split_image_model any_host trim
split_test = refl

listing_test :
    supported_image_models_listing
    ≡ "codex-gpt-image-2, gpt-image-2, plus-codex-gpt-image-2, pro-codex-gpt-image-2, team-codex-gpt-image-2"
unfolding supported_image_models_listing sort_by
listing_test = refl
