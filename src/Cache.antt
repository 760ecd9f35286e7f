-- ===== src/Cache.antt =====
-- src/services/protocol/chat_completion_cache.rs: the table of cached answers, with its time to live,
-- its limit and the calls that compute the same answer. A time is a number of milliseconds, where
-- the source has seconds as a float; the list of entries stands for the order in which the source
-- walks its hash map. An object behind an `Arc` is its position in `states`.
pub mod Messages
pub mod Prune
pub mod Shared
use model2api.Common.{
  ℕ, zero, suc, ◌+◌, ◌*◌, Bool, true, false, not, ◌||◌, ◌&&◌, Option, none, some, List, [], ◌∷◌,
  ◌++◌, String, ltb, if◌then◌else◌, ℤ, pos, ltb_ℤ, max_ℤ, pos_part, option_or, length, get_elem?,
  is_some, ◌==◌,
}
use model2api.Common.Maps.{Map, get, insert, remove, retain}
use model2api.Json.{
  Value, Items, Fields, null, get_field, get_value, as_i64, as_str, bind_option, bool_at, int_at,
  arr, obj, bool, end, set,
}

pub record Entry : Type 0 where
  pub expires_at : ℕ
  pub value : Value

pub data Result : Type 0 where
  ok : Value → Result
  err : String → Result

pub record InflightState : Type 0 where
  pub done : Bool
  pub value : Option Value
  pub error : Option String

-- Inner, with the states of the computations behind their `Arc`s.
pub record Inner : Type 0 where
  pub entries : Map Entry
  pub inflight : Map ℕ
  pub states : List InflightState

abbrev pub fresh_state : InflightState
fresh_state = record { done = false; value = none; error = none }

unfoldable pub clear : Inner → Inner
clear inner = record inner { entries = []; inflight = [] }

-- The entry that expires first, the first of them in the walk.
unfoldable pub oldest : Map Entry → Option (String × ℕ)
oldest [] = none
oldest ((k, e) ∷ m) = elim (oldest m) [
  | none ↦ some (k, e.expires_at)
  | some best ↦ if ltb best.1 e.expires_at then some best else some (k, e.expires_at)
]

-- The loop that evicts while there are too many entries, on fuel.
unfoldable pub evict : ℕ → ℕ → Map Entry → Map Entry
evict zero max_entries m = m
evict (suc fuel) max_entries m = elim (ltb max_entries (length m)) [
  | true ↦ elim (oldest m) [ none ↦ m | some best ↦ evict fuel max_entries (remove best.0 m) ]
  | false ↦ m
]

abbrev pub live : ℕ → Map Entry → Map Entry
live now m = retain (λ k e. ltb now e.expires_at) m

-- One round for each entry is enough: each round takes one away.
unfoldable pub prune_locked : ℕ → ℕ → Inner → Inner
prune_locked now max_entries inner = record inner {
  entries = evict (length inner.entries) max_entries (live now inner.entries);
}

-- What the settings say.
abbrev pub ttl_of : Fields → ℤ
ttl_of settings = int_at "ttl_seconds" settings

abbrev pub is_off : Fields → Bool
is_off settings = not (bool_at "enabled" settings) || not (ltb_ℤ (pos 0) (ttl_of settings))

abbrev pub max_entries_of : Fields → ℕ
max_entries_of settings =
    pos_part
      (max_ℤ (option_or (pos 1) (bind_option (get_field "max_entries" settings) as_i64)) (pos 1))

-- What a call does after the first lock: it answers, waits for another call, or computes.
pub data Begun : Type 0 where
  answers : Value → Begun
  joins : ℕ → Begun
  owns : ℕ → Begun

-- A computation of its own, under a new state.
abbrev pub new_state : Inner → Inner
new_state inner = record inner { states = inner.states ++ (fresh_state ∷ []) }

begin_missing : Bool → String → Inner → Begun × Inner
begin_missing true key inner = elim (get key inner.inflight) [
  | some i ↦ (joins i, inner)
  | none ↦ (
    owns (length inner.states),
    record (new_state inner) { inflight = insert key (length inner.states) inner.inflight },
  )
]
begin_missing false key inner = (owns (length inner.states), new_state inner)

begin_pruned : Fields → ℕ → String → Inner → Begun × Inner
unfolding begin_missing
begin_pruned settings now key inner = elim (get key inner.entries) [
  | none ↦ begin_missing (bool_at "dedupe_inflight" settings) key inner
  | some e ↦
      if ltb now e.expires_at
      then (answers e.value, inner)
      else begin_missing (bool_at "dedupe_inflight" settings) key inner
]

-- The first part of `get_or_compute_response`, where the cache is on. The clock is read twice.
unfoldable pub begin : Fields → ℕ → ℕ → String → Inner → Begun × Inner
unfolding begin_pruned
begin settings prune_now now key inner =
    begin_pruned settings now key (prune_locked prune_now (max_entries_of settings) inner)

-- What a caller that waits reads from the state: nothing while the computation runs.
unfoldable pub read_state : InflightState → Option Result
read_state state =
    if state.done
    then some (elim state.error [ some e ↦ err e | none ↦ ok (option_or null state.value) ])
    else none

pub set_state : ℕ → InflightState → List InflightState → List InflightState
set_state i x [] = []
set_state zero x (y ∷ ys) = x ∷ ys
set_state (suc i) x (y ∷ ys) = y ∷ set_state i x ys

pub settle : Result → InflightState → InflightState
settle (ok v) state = record state { value = some v; done = true }
settle (err e) state = record state { error = some e; done = true }

pub publish : ℕ → Result → Inner → Inner
publish i r inner = elim (get_elem? inner.states i) [
  | none ↦ inner
  | some state ↦ record inner { states = set_state i (settle r state) inner.states }
]

-- What the caller that computed does with the result, the critical section and the publication.
unfoldable pub store_result : Fields → ℕ → ℕ → String → Result → Inner → Inner
store_result settings now prune_now key (err e) inner = record inner {
  inflight = remove key inner.inflight;
}
store_result settings now prune_now key (ok v) inner =
    let e : Entry = record { expires_at = now + pos_part (ttl_of settings) * 1000; value = v } in
    let pruned =
      prune_locked prune_now (max_entries_of settings)
        (record inner { entries = insert key e inner.entries }) in
    record pruned { inflight = remove key pruned.inflight }

unfoldable pub finish : Fields → ℕ → ℕ → String → ℕ → Result → Inner → Inner
unfolding publish settle set_state
finish settings now prune_now key i r inner =
    publish i r (store_result settings now prune_now key r inner)

-- cacheable_text_keys: the fields of a request that count for its key.
abbrev cacheable_text_keys : List String
cacheable_text_keys =
    "frequency_penalty" ∷ "max_completion_tokens" ∷ "max_tokens" ∷ "metadata" ∷ "model"
    ∷ "presence_penalty" ∷ "reasoning_effort" ∷ "response_format" ∷ "seed" ∷ "stop" ∷ "temperature"
    ∷ "tool_choice" ∷ "tools" ∷ "top_p" ∷ "user" ∷ []

pub copy_keys : List String → Fields → Fields → Fields
copy_keys [] body payload = payload
copy_keys (k ∷ ks) body payload =
    copy_keys ks body (elim (get_field k body) [ none ↦ payload | some v ↦ set k v payload ])

abbrev fields_of : Value → Fields
fields_of (obj m) = m
fields_of other = end

unfoldable pub canonical_body : Value → Items → Bool → Fields
unfolding copy_keys
canonical_body body messages stream =
    set "stream" (bool stream)
      (set "messages" (arr messages) (copy_keys cacheable_text_keys (fields_of body) end))

-- The normalisation of the messages, over the signature `canonical_json` of a message.
abbrev pub is_assistant : Value → Bool
is_assistant message = option_or "" (bind_option (get_value "role" message) as_str) == "assistant"

pub keep_messages : (Value → String) → Bool → Bool → String → List Value → List Value
keep_messages signature drop_assistant drop_dupes previous [] = []
keep_messages signature drop_assistant drop_dupes previous (message ∷ messages) =
    let skipped = keep_messages signature drop_assistant drop_dupes previous messages in
    let taken = keep_messages signature drop_assistant drop_dupes (signature message) messages in
    if drop_assistant && is_assistant message
    then skipped
    else if drop_dupes && signature message == previous
    then skipped
    else message ∷ taken

unfoldable pub normalize_text_messages : (Value → String) → Fields → List Value → List Value
unfolding keep_messages
normalize_text_messages signature settings messages =
    if not (bool_at "normalize_messages" settings)
    then messages
    else keep_messages signature (bool_at "drop_assistant_history" settings)
        (bool_at "drop_adjacent_duplicates" settings) "" messages
