-- ===== src/Images/Formats.antt =====
-- src/services/protocol/conversation.rs: the prompt of an image, the images in a response, and
-- `format_image_result`.
use model2api.Common.{
  ℕ, String, not, ◌&&◌, Option, none, some, List, [], ◌∷◌, ◌++◌, ℤ, ◌==◌, if◌then◌else◌, trim,
  append,
}
use model2api.Common.Prefix.{split_on}
use text.Mathlib.Text.{starts_with}
use model2api.Json.{
  Value, Items, Fields, str, int, arr, obj, nil, cons, end, field, get_field, get_value, set,
  text_at,
}
use model2api.Storage.JsonFile.{items_of}
use model2api.Conversation.{text_of, text_is}

unfoldable pub prompt_with_global_system : String → String → String
prompt_with_global_system gsp prompt =
    if gsp == "" then prompt else append gsp (append "\n\n" prompt)

size_hint : Option String → String
size_hint none = ""
size_hint (some s) = if s == "" then "" else append "输出图片尺寸为 " (append s "。")

quality_hint : String → String
quality_hint quality = if quality == "" then "" else append "输出图片质量为 " (append quality "。")

-- The hints are empty where there is none of them: no hint is an empty text.
unfoldable pub build_image_prompt : String → Option String → String → String
unfolding size_hint quality_hint
build_image_prompt prompt size quality =
    let hints = append (size_hint size) (quality_hint quality) in
    if hints == "" then prompt else append (trim prompt) (append "\n\n" hints)

join_commas : List String → String
join_commas [] = ""
join_commas (p ∷ []) = p
join_commas (p ∷ q ∷ ps) = append p (append "," (join_commas (q ∷ ps)))

-- `splitn(2, ',').nth(1)`, or the text where it has no comma.
behind_comma : String → String
unfolding join_commas
behind_comma t = elim (split_on b',' t) [
  | [] ↦ t
  | p ∷ ps ↦ elim ps [ [] ↦ t | q ∷ qs ↦ join_commas (q ∷ qs) ]
]

-- The image of a call that generated one.
call_image : Fields → Option String
unfolding behind_comma
call_image m =
    let result = trim (text_at "result" m) in
    if text_is (get_field "type" m) "image_generation_call" && not (result == "")
    then some (if starts_with result "data:image/" then behind_comma result else result)
    else none

mutual
  unfolding call_image

  pub codex_response_images : Value → List String
  codex_response_images (obj m) =
      let inner = images_in_fields m in elim (call_image m) [ some item ↦ item ∷ [] | none ↦ inner ]
  codex_response_images (arr vs) = images_in_items vs
  codex_response_images v = []

  images_in_fields : Fields → List String
  images_in_fields end = []
  images_in_fields (field k v m) = codex_response_images v ++ images_in_fields m

  images_in_items : Items → List String
  images_in_items nil = []
  images_in_items (cons v vs) = codex_response_images v ++ images_in_items vs

-- What the formatting takes from base64 and from the store of images: the bytes of an image and the
-- URL under which it is stored.
pub record ImageStorage : Type 0 where
  pub encode : List ℕ → String
  pub decode : String → Option (List ℕ)
  pub save : List ℕ → Option String → String

revised_prompt_of : Value → String → String
revised_prompt_of item prompt =
    let given = text_of (get_value "revised_prompt" item) in
    let t = trim (if given == "" then prompt else given) in if t == "" then prompt else t

-- One entry of the result, where the item holds an image.
format_item : ImageStorage → String → String → Option String → Value → Option Value
unfolding revised_prompt_of
format_item storage prompt response_format base_url item =
    let b64 = trim (text_of (get_value "b64_json" item)) in
    let revised = str (revised_prompt_of item prompt) in
    if b64 == "" then none else elim (storage.decode b64) [
      | none ↦ none
      | some bytes ↦
          let url = str (storage.save bytes base_url) in
          some (
            if response_format == "b64_json"
            then obj
                (field "b64_json" (str b64) (field "url" url (field "revised_prompt" revised end)))
            else obj (field "url" url (field "revised_prompt" revised end)))
    ]

unfoldable pub format_items :
    ImageStorage → String → String → Option String → List Value → List Value
unfolding format_item
format_items storage prompt response_format base_url [] = []
format_items storage prompt response_format base_url (item ∷ items) =
    let rest = format_items storage prompt response_format base_url items in
    elim (format_item storage prompt response_format base_url item) [
      | none ↦ rest
      | some entry ↦ entry ∷ rest
    ]

-- The object of the answer, and its `data`.
unfoldable pub format_image_result :
    ImageStorage → List Value → String → String → Option String → ℤ → String → Fields × List Value
format_image_result storage items prompt response_format base_url created message =
    let entries = format_items storage prompt response_format base_url items in
    let result = field "created" (int created) (field "data" (arr (items_of entries)) end) in
    (
      elim entries [
        | [] ↦ if message == "" then result else set "message" (str message) result
        | entry ∷ rest ↦ result
      ],
      entries,
    )
