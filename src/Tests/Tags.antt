-- ===== src/Tests/Tags.antt =====
-- The tags of the images, on a disk that keeps the value of its file.
use model2api.Common.{◌≡◌, refl, Option, none, some, [], ◌∷◌}
use model2api.Json.{
  Value, str, arr, obj, nil, cons, end, field, get_field, insert_field, remove_field,
}
use model2api.ImageTags.{
  Disk, Inner, clean, get_tags, set_tags, delete_tag, read_file, write_file, value_to_tags, strings,
  items_of,
}
use model2api.ImageTags.Changes.{IsDisk, get_tags-set_tags}

abbrev present : Option Value → Option Value
present none = some (obj end)
present (some v) = some v

abbrev disk : Disk
disk = record { File = Option Value; ensure = present; load = λ f. f; store = λ m f. some (obj m) }

disk-IsDisk : IsDisk disk
disk-IsDisk = record { loads = λ m f. refl; there = λ m f. refl; again = again }
  where
    again : (f : Option Value) → present (present f) ≡ present f
    again none = refl
    again (some v) = refl

abbrev two_images : Inner disk
two_images = record {
  file = some (
      obj (
        field "a.png" (arr (cons (str "cat") (cons (str "red") nil)))
          (field "b.png" (arr (cons (str "cat") nil)) end)));
  cache = end;
}

delete_test : (get_tags disk "a.png" (delete_tag disk "cat" two_images).1).0 ≡ "red" ∷ []
unfolding get_tags delete_tag read_file write_file value_to_tags strings items_of get_field
    insert_field remove_field
delete_test = refl

get_tags-set_tags_example :
    ((set_tags disk "b.png" (" dog " ∷ "" ∷ "dog" ∷ []) two_images).0
      ≡ clean [] (" dog " ∷ "" ∷ "dog" ∷ []))
    × ((get_tags disk "a.png" (set_tags disk "b.png" (" dog " ∷ "" ∷ "dog" ∷ []) two_images).1).0
        ≡ (get_tags disk "a.png" two_images).0)
get_tags-set_tags_example =
    get_tags-set_tags disk "b.png" "a.png" (" dog " ∷ "" ∷ "dog" ∷ []) two_images disk-IsDisk
