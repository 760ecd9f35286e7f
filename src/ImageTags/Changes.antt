-- ===== src/ImageTags/Changes.antt =====
-- What a change of the tags does to the tags of each image.
use model2api.Common.{
  ℕ, suc, String, ◌≡◌, refl, sym, ap, subst, ◌≤◌, ◌∙◌, false, not, none, some, List, [], ◌∷◌, inl,
  inr, Bool-cases, ltb, ◌==◌, if◌then◌else◌, elem, filterb, arith, eq_iff,
}
use model2api.Json.{Fields, obj, arr, end, field, get_field}
use model2api.Json.Laws.{get_field-insert_field, get_field-remove_field}
use model2api.ImageTags.{
  Disk, Inner, read_file, write_file, loaded, strings, value_to_tags, items_of, get_tags, set_tags,
  clean, put_tags, keys_of, delete_each, delete_tag,
}

strings-items_of : (ts : List String) → strings (items_of ts) ≡ ts
unfolding strings items_of
strings-items_of [] = refl
strings-items_of (t ∷ ts) = rw (strings-items_of ts) refl

abbrev pub tags_in : String → Fields → List String
tags_in rel m = value_to_tags (get_field rel m)

tags_in-put_tags :
    (rel other : String) (ts : List String) (m : Fields)
    → tags_in other (put_tags rel ts m) ≡ (if rel == other then ts else tags_in other m)
unfolding put_tags
tags_in-put_tags rel other [] m = elim (Bool-cases (rel == other)) [
  | inl one ↦ rw (get_field-remove_field rel other m) (rw one (unfold value_to_tags in refl))
  | inr two ↦ rw (get_field-remove_field rel other m) (rw two refl)
]
tags_in-put_tags rel other (t ∷ ts) m = elim (Bool-cases (rel == other)) [
  | inl one ↦
      rw (get_field-insert_field rel other (arr (items_of (t ∷ ts))) m)
        (rw one (unfold value_to_tags in strings-items_of (t ∷ ts)))
  | inr two ↦ rw (get_field-insert_field rel other (arr (items_of (t ∷ ts))) m) (rw two refl)
]

abbrev pub without : String → List String → List String
without tag ts = filterb (λ t. not (t == tag)) ts

-- What the disk is taken to do: it gives back the object that was stored, and a file that was
-- stored is there.
pub record IsDisk (d : Disk) : Type 0 where
  pub loads : (m : Fields) (f : d.File) → d.load (d.store m f) ≡ some (obj m)
  pub there : (m : Fields) (f : d.File) → d.ensure (d.store m f) ≡ d.store m f
  pub again : (f : d.File) → d.ensure (d.ensure f) ≡ d.ensure f

read-write :
    (d : Disk) → IsDisk d → (m : Fields) (f : d.File) → (read_file d (write_file d m f)).0 ≡ m
unfolding read_file write_file loaded
read-write d is m f = rw (is.there m (d.ensure f)) (rw (is.loads m (d.ensure f)) refl)

-- The tags that an image is given are those that are read for it afterwards, trimmed, without blank
-- and repeated ones, and they are the answer; the tags of every other image stay as they were.
pub get_tags-set_tags :
    (d : Disk) (rel other : String) (tags : List String) (inner : Inner d)
    → IsDisk d
    → ((set_tags d rel tags inner).0 ≡ clean [] tags)
      × ((get_tags d other (set_tags d rel tags inner).1).0
          ≡ (if rel == other then clean [] tags else (get_tags d other inner).0))
unfolding set_tags get_tags
get_tags-set_tags d rel other tags inner is =
    let m = (read_file d inner.file).0 in
    (
      refl,
      rw (read-write d is (put_tags rel (clean [] tags) m) (read_file d inner.file).1)
          (tags_in-put_tags rel other (clean [] tags) m),
    )

without_absent : (tag : String) (ts : List String) → elem tag ts ≡ false → without tag ts ≡ ts
without_absent tag [] h = refl
without_absent tag (t ∷ ts) h = ground (arith, without_absent tag ts)

elem-without : (tag : String) (ts : List String) → elem tag (without tag ts) ≡ false
elem-without tag [] = refl
elem-without tag (t ∷ ts) = ground (arith, elem-without tag ts)

without_idem : (tag : String) (ts : List String) → without tag (without tag ts) ≡ without tag ts
without_idem tag ts = without_absent tag (without tag ts) (elem-without tag ts)

-- One step of the loop, for the tags of an image.
abbrev visited : String → String → ℕ × Fields → ℕ × Fields
visited tag rel (n, m) =
    if elem tag (tags_in rel m)
    then (suc n, put_tags rel (without tag (tags_in rel m)) m)
    else (n, m)

tags_in-visited :
    (tag rel other : String) (n : ℕ) (m : Fields)
    → tags_in other (visited tag rel (n, m)).1
      ≡ (if rel == other then without tag (tags_in other m) else tags_in other m)
tags_in-visited tag rel other n m = elim (Bool-cases (elem tag (tags_in rel m))) [
  | inl has ↦ rw has (
      tags_in-put_tags rel other (without tag (tags_in rel m)) m
      ∙ (elim (Bool-cases (rel == other)) [
        | inl one ↦ rw one (ap (λ r. without tag (tags_in r m)) ((eq_iff rel other).0 one))
        | inr two ↦ rw two refl
      ]))
  | inr lacks ↦ rw lacks (elim (Bool-cases (rel == other)) [
    | inl one ↦
        let is : rel ≡ other = (eq_iff rel other).0 one in
        let none_left = subst (λ r. elem tag (tags_in r m) ≡ false) is lacks in
        rw one (sym (without_absent tag (tags_in other m) none_left))
    | inr two ↦ rw two refl
  ])
]

tags_in-delete_each :
    (tag other : String) (rels : List String) (n : ℕ) (m : Fields)
    → tags_in other (delete_each tag rels (n, m)).1
      ≡ (if elem other rels then without tag (tags_in other m) else tags_in other m)
unfolding delete_each
tags_in-delete_each tag other [] n m = refl
tags_in-delete_each tag other (rel ∷ rels) n m =
    let v = visited tag rel (n, m) in
    let rest = tags_in-delete_each tag other rels v.0 v.1 in
    let now = tags_in-visited tag rel other n m in
    let idem = without_idem tag (tags_in other m) in
    rest
    ∙ (rw now (elim (Bool-cases (rel == other)) [
      | inl one ↦ rw one (elim (Bool-cases (elem other rels)) [
        | inl later ↦ rw later idem
        | inr last ↦ rw last refl
      ])
      | inr two ↦ rw two refl
    ]))

-- The count tells whether the map has changed.
delete_each-count :
    (tag : String) (rels : List String) (n : ℕ) (m : Fields) → n ≤ (delete_each tag rels (n, m)).0
unfolding delete_each
delete_each-count tag [] n m = omega arith
delete_each-count tag (rel ∷ rels) n m = elim (Bool-cases (elem tag (tags_in rel m))) [
  | inl has ↦
      rw (has, delete_each)
        (let rest =
            delete_each-count tag rels (suc n) (put_tags rel (without tag (tags_in rel m)) m) in
          omega (arith, rest))
  | inr lacks ↦ rw (lacks, delete_each) (delete_each-count tag rels n m)
]

delete_each_keeps :
    (tag : String) (rels : List String) (n : ℕ) (m : Fields)
    → (delete_each tag rels (n, m)).0 ≡ n
    → (delete_each tag rels (n, m)).1 ≡ m
unfolding delete_each
delete_each_keeps tag [] n m h = refl
delete_each_keeps tag (rel ∷ rels) n m h = elim (Bool-cases (elem tag (tags_in rel m))) [
  | inl has ↦
      let rest =
        delete_each-count tag rels (suc n) (put_tags rel (without tag (tags_in rel m)) m) in
      let h' : (delete_each tag rels (suc n, put_tags rel (without tag (tags_in rel m)) m)).0 ≡ n =
        rw (has, delete_each) at h in
      absurd (omega (arith, rest, h'))
  | inr lacks ↦
      let h' : (delete_each tag rels (n, m)).0 ≡ n = rw (lacks, delete_each) at h in
      rw (lacks, delete_each) (delete_each_keeps tag rels n m h')
]

absent_key : (k : String) (m : Fields) → elem k (keys_of m) ≡ false → get_field k m ≡ none
unfolding keys_of get_field
absent_key k end h = refl
absent_key k (field j v m) h = ground (arith, absent_key k m)

deleted_tags :
    (tag other : String) (m : Fields)
    → tags_in other (delete_each tag (keys_of m) (0, m)).1 ≡ without tag (tags_in other m)
deleted_tags tag other m =
    tags_in-delete_each tag other (keys_of m) 0 m ∙ (elim (Bool-cases (elem other (keys_of m))) [
      | inl there ↦ rw there refl
      | inr gone ↦ rw (gone, absent_key other m gone) (unfold value_to_tags in refl)
    ])

read-unchanged :
    (d : Disk) → IsDisk d → (f : d.File) → (read_file d (read_file d f).1).0 ≡ (read_file d f).0
unfolding read_file
read-unchanged d is f = rw (is.again f) refl

-- Deleting a tag takes it from every image and leaves all other tags of each image, in their order,
-- also where the file is not written again because no image had the tag.
get_tags-delete_tag :
    (d : Disk) (tag other : String) (inner : Inner d)
    → IsDisk d
    → (get_tags d other (delete_tag d tag inner).1).0 ≡ without tag (get_tags d other inner).0
unfolding delete_tag get_tags
get_tags-delete_tag d tag other inner is =
    let (m, f) = read_file d inner.file in
    let r = delete_each tag (keys_of m) (0, m) in
    elim (Bool-cases (ltb 0 r.0)) [
      | inl some' ↦ rw some' (rw (read-write d is r.1 f) (deleted_tags tag other m))
      | inr none' ↦
          let nothing : r.0 ≡ 0 = ground arith in
          let kept = delete_each_keeps tag (keys_of m) 0 m nothing in
          rw none' (
            rw (read-unchanged d is inner.file)
              (ap (λ x. tags_in other x) (sym kept) ∙ deleted_tags tag other m))
    ]
