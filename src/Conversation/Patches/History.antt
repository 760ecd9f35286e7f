-- ===== src/Conversation/Patches/History.antt =====
-- src/services/protocol/conversation.rs: `strip_history` ends, with every copy of the history gone.
use model2api.Common.{
  ℕ, zero, suc, String, ◌≡◌, ◌∙◌, ap, sym, true, false, ◌≤◌, ◌+◌, ◌==◌, append, Bool-cases, inl,
  inr, arith,
}
use model2api.Common.Prefix.{after, append-after}
use text.Mathlib.Text.{starts_with}
use text.Mathlib.TextPositions.{len-append, len_utf8-pos}
use text.Mathlib.TextLemmas.{append_assoc, nil-append}
use Prim.Native.String.{len}
use Prim.Native.String.len
use model2api.Conversation.Patches.{strip_history, strip_from}

abbrev pub copies : ℕ → String → String
copies zero t = ""
copies (suc n) t = append t (copies n t)

-- The text is a number of copies of the history and the result, which does not start with another.
abbrev pub Stripped : String → String → String → Type 0
Stripped text history result =
    ((n : ℕ) × (append (copies n history) result ≡ text)) × (starts_with result history ≡ false)

len_pos : (t : String) → (t == "") ≡ false → 1 ≤ len t
len_pos String.[] h = absurd (cc)
len_pos (String.◌∷◌ c s) h =
    let (k, e) = len_utf8-pos c in
    let all : len (String.◌∷◌ c s) ≡ suc k + len s = len.cons c s ∙ ap (λ w. w + len s) e in
    rw all (omega arith)

module _ (history : String) (named : (history == "") ≡ false) where
  Stripped-front :
      (text rest : String)
      → append history (after text history) ≡ text
      → Stripped (after text history) history rest
      → Stripped text history rest
  Stripped-front text rest e ((n, whole), ends) =
      ((suc n, append_assoc history (copies n history) rest ∙ ap (append history) whole ∙ e), ends)

  shorter :
      (text : String) (n : ℕ)
      → starts_with text history ≡ true
      → len text ≤ n
      → suc (len (after text history)) ≤ n
  shorter text n front small =
      let parts : len text ≡ len history + len (after text history) =
        ap len (sym (append-after text history front)) ∙ len-append history (after text history) in
      let some_byte = len_pos history named in omega arith

  strip_from-Stripped :
      (n : ℕ) (text : String) → len text ≤ n → Stripped text history (strip_from n text history)
  unfolding strip_from
  strip_from-Stripped zero text small = elim (Bool-cases (starts_with text history)) [
    | inl front ↦ absurd (let less = shorter text zero front small in omega arith)
    | inr other ↦ ((zero, nil-append text), other)
  ]
  strip_from-Stripped (suc n) text small = elim (Bool-cases (starts_with text history)) [
    | inl front ↦
        let less = shorter text (suc n) front small in
        rw (strip_from, front)
          (Stripped-front text (strip_from n (after text history) history)
            (append-after text history front)
            (strip_from-Stripped n (after text history) (omega arith)))
    | inr other ↦ rw (strip_from, other) ((zero, nil-append text), other)
  ]

  -- Where the history is not empty, the loop ends, and takes every copy of the history off the front
  -- of the text and nothing else: the text is a number of copies and the result, and the result does
  -- not start with another copy.
  pub strip_history-Stripped : (text : String) → Stripped text history (strip_history text history)
  unfolding strip_history
  strip_history-Stripped text = rw named (strip_from-Stripped (len text) text (omega arith))
