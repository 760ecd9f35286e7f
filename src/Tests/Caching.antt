-- ===== src/Tests/Caching.antt =====
-- The cache of answers: three entries, which expire one after another, and a computation that runs.
use model2api.Common.{
  ℕ, zero, suc, arith, eq_iff, String, ◌≡◌, refl, true, false, List, some, none, [], ◌∷◌, nat_eq,
  pos, get_elem?,
}
use model2api.Common.Maps.{get, remove, retain}
use model2api.Json.{Fields, Value, str, bool, int, obj, field, end, get_field, text_at}
use model2api.Cache.{
  Entry, Inner, InflightState, ok, fresh_state, begin, finish, prune_locked, oldest, evict,
  read_state, normalize_text_messages,
}
use model2api.Cache.Prune.{Pruned, prune_locked-Pruned}
use model2api.Cache.Shared
use model2api.Cache.Shared.{Sharing, Shared, IsShared, Run-IsShared, finish-delivers}

abbrev entry_of : ℕ → Entry
entry_of t = record { expires_at = t; value = str "answer" }

abbrev three_entries : Inner
three_entries = record {
  entries = ("a", entry_of 10) ∷ ("b", entry_of 30) ∷ ("c", entry_of 20) ∷ [];
  inflight = ("d", 0) ∷ [];
  states = fresh_state ∷ [];
}

abbrev settings : Fields
settings =
    field "enabled" (bool true)
      (field "ttl_seconds" (int (pos 5)) (field "dedupe_inflight" (bool true) end))

abbrev sharing : Sharing
sharing = record { inner = three_entries; running = ("d", 0) ∷ [] }

prune_test : (prune_locked 15 1 three_entries).entries ≡ ("b", entry_of 30) ∷ []
unfolding prune_locked oldest evict remove retain
prune_test = refl

prune_locked-Pruned_example :
    Pruned 15 1 three_entries.entries (prune_locked 15 1 three_entries).entries
unfolding get
prune_locked-Pruned_example = prune_locked-Pruned 15 1 three_entries (refl, (refl, (refl, tt)))

sharing-Shared : Shared sharing
unfolding get
sharing-Shared = record {
  distinct = (refl, tt);
  same = λ k. refl;
  pending = pending;
  separate = λ k j i a b. ground (arith, eq_iff "d" k, eq_iff "d" j);
}
  where
    pending :
        (k : String) (i : ℕ)
        → get k three_entries.inflight ≡ some i
        → get_elem? three_entries.states i ≡ some fresh_state
    pending k zero h = refl
    pending k (suc i) h = absurd (ground arith)

Run-IsShared_example :
    Shared (Shared.begun "d" (begin settings 15 15 "d" three_entries) (("d", 0) ∷ []))
unfolding get_field
Run-IsShared_example =
    Run-IsShared settings sharing _ refl sharing-Shared
      (Shared.next Shared.here (Shared.calls 15 15 "d"))

finish-delivers_example :
    let q = finish settings 15 15 "d" 0 (ok (str "done")) three_entries in
    ((st : InflightState) × (get_elem? q.states 0 ≡ some st)
      × (read_state st ≡ some (ok (str "done"))))
    × ((j : ℕ) → nat_eq 0 j ≡ false → get_elem? q.states j ≡ get_elem? three_entries.states j)
    × (get "d" q.inflight ≡ none)
unfolding get
finish-delivers_example =
    finish-delivers settings 15 15 "d" 0 (ok (str "done")) sharing sharing-Shared refl

abbrev message : String → String → Value
message role content = obj (field "role" (str role) (field "content" (str content) end))

abbrev signature : Value → String
signature (obj m) = text_at "content" m
signature other = ""

abbrev messages : List Value
messages =
    message "user" "hi"
    ∷ message "assistant" "hello"
    ∷ message "user" "hi"
    ∷ message "user" "bye"
    ∷ []

abbrev dropping : Fields
dropping =
    field "normalize_messages" (bool true) (
      field "drop_assistant_history" (bool true) (field "drop_adjacent_duplicates" (bool true) end))

messages_test :
    normalize_text_messages signature dropping messages
    ≡ message "user" "hi" ∷ message "user" "bye" ∷ []
unfolding normalize_text_messages get_field
messages_test = refl
