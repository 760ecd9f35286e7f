-- ===== src/Cache/Messages.antt =====
-- The normalisation of the messages of a request before its key is computed.
use model2api.Common.{
  String, ◌≡◌, refl, Bool, false, ◌&&◌, List, [], ◌∷◌, inl, inr, Bool-cases, ◌==◌,
}
use model2api.Json.{Value, Fields, bool_at}
use model2api.Cache.{is_assistant, keep_messages, normalize_text_messages}

-- Neither a message that is dropped for its role nor one with the signature of the one before it.
abbrev pub NoneSkipped : (Value → String) → Bool → Bool → String → List Value → Type 0
NoneSkipped signature drop_assistant drop_dupes previous [] = Unit
NoneSkipped signature drop_assistant drop_dupes previous (message ∷ messages) =
    ((drop_assistant && is_assistant message) ≡ false)
    × ((drop_dupes && signature message == previous) ≡ false)
    × NoneSkipped signature drop_assistant drop_dupes (signature message) messages

module _ (signature : Value → String) (drop_assistant drop_dupes : Bool) where
  keep_messages-NoneSkipped :
      (previous : String) (messages : List Value)
      → NoneSkipped signature drop_assistant drop_dupes previous
          (keep_messages signature drop_assistant drop_dupes previous messages)
  unfolding keep_messages
  keep_messages-NoneSkipped previous [] = tt
  keep_messages-NoneSkipped previous (message ∷ messages) =
      let skipped = keep_messages-NoneSkipped previous messages in
      let taken = keep_messages-NoneSkipped (signature message) messages in
      elim (Bool-cases (drop_assistant && is_assistant message)) [
        | inl dropped ↦ rw dropped skipped
        | inr kept ↦ rw kept (elim (Bool-cases (drop_dupes && signature message == previous)) [
          | inl twice ↦ rw twice skipped
          | inr once ↦ rw once (kept, once, taken)
        ])
      ]

  NoneSkipped-keep_messages :
      (previous : String) (messages : List Value)
      → NoneSkipped signature drop_assistant drop_dupes previous messages
      → keep_messages signature drop_assistant drop_dupes previous messages ≡ messages
  unfolding keep_messages
  NoneSkipped-keep_messages previous [] n = refl
  NoneSkipped-keep_messages previous (message ∷ messages) n =
      rw (n.0, n.1, NoneSkipped-keep_messages (signature message) messages n.2) refl

abbrev on : String → Fields → Bool
on key settings = bool_at "normalize_messages" settings && bool_at key settings

-- The messages that are kept have no assistant's message and no neighbours with one signature,
-- where the settings drop these, and normalising them again changes nothing.
normalize_text_messages-Normal :
    (signature : Value → String) (settings : Fields) (messages : List Value)
    → let kept = normalize_text_messages signature settings messages in
      NoneSkipped signature
        (on "drop_assistant_history" settings)
        (on "drop_adjacent_duplicates" settings)
        ""
        kept
      × (normalize_text_messages signature settings kept ≡ kept)
unfolding normalize_text_messages
normalize_text_messages-Normal signature settings messages =
    elim (Bool-cases (bool_at "normalize_messages" settings)) [
      | inr off ↦ rw off (none_off messages "", refl)
      | inl set ↦
          let a = bool_at "drop_assistant_history" settings in
          let d = bool_at "drop_adjacent_duplicates" settings in
          let n = keep_messages-NoneSkipped signature a d "" messages in
          rw set (
            n,
            NoneSkipped-keep_messages signature a d "" (keep_messages signature a d "" messages) n,
          )
    ]
  where
    none_off : (xs : List Value) (p : String) → NoneSkipped signature false false p xs
    none_off [] p = tt
    none_off (x ∷ xs) p = (refl, refl, none_off xs (signature x))
