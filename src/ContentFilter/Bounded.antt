-- ===== src/ContentFilter/Bounded.antt =====
-- src/services/content_filter.rs: the text for the review keeps the limit.
use Prim.Native.String.{count}
use text.Mathlib.TextLemmas.{length-append, length-cons}
use model2api.Common.{
  ℕ, zero, suc, ◌-◌, ◌/◌, ◌≤◌, ◌≡◌, String, arith, append, ltb, ltb→lt, refl, Bool-cases, inl, inr,
}
use model2api.Common.Sorting.{take_chars}
use model2api.ContentFilter.{
  drop_chars, truncated, sanitize_for_review, Reviewer, max_review_text_len, truncation_marker,
}

count-take_chars : (n : ℕ) (s : String) → count (take_chars n s) ≤ n
unfolding take_chars
count-take_chars zero s = omega arith
count-take_chars (suc n) String.[] = omega arith
count-take_chars (suc n) (String.◌∷◌ c s) =
    rw (length-cons c (take_chars n s)) (omega (arith, count-take_chars n s))

count-drop_chars : (n : ℕ) (s : String) → count (drop_chars n s) ≡ count s - n
unfolding drop_chars
count-drop_chars zero s = omega arith
count-drop_chars (suc n) String.[] = omega arith
count-drop_chars (suc n) (String.◌∷◌ c s) =
    rw (length-cons c s) (omega (arith, count-drop_chars n s))

count-truncated :
    (limit : ℕ) (s : String) → count truncation_marker ≤ limit → count (truncated limit s) ≤ limit
unfolding truncated
count-truncated limit s room = elim (Bool-cases (ltb limit (count s))) [
  | inl long ↦
      let half : ℕ = (limit - count truncation_marker) / 2 in
      rw
        (
          long,
          length-append (take_chars half s)
              (append truncation_marker (drop_chars (count s - half) s)),
          length-append truncation_marker (drop_chars (count s - half) s),
          count-drop_chars (count s - half) s,
        )
        (omega (arith, count-take_chars half s))
  | inr short ↦ rw short (ground arith)
]

truncated-short : (limit : ℕ) (s : String) → count s ≤ limit → truncated limit s ≡ s
unfolding truncated
truncated-short limit s within = elim (Bool-cases (ltb limit (count s))) [
  | inl long ↦
      let absurd : ⊥ = omega (arith, ltb→lt limit (count s) long, within) in elim absurd [ ]
  | inr short ↦ rw short refl
]

-- The text for the review has no more characters than the limit, and one within the limit is left as it is
-- but for its data URIs.
pub count-sanitize_for_review :
    (r : Reviewer) (t : String)
    → (count (sanitize_for_review r t) ≤ max_review_text_len)
      × (count (r.strip_data_uris t) ≤ max_review_text_len
          → sanitize_for_review r t ≡ r.strip_data_uris t)
unfolding sanitize_for_review
count-sanitize_for_review r t = (
  count-truncated max_review_text_len (r.strip_data_uris t) (omega arith),
  truncated-short max_review_text_len (r.strip_data_uris t),
)
