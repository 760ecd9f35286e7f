-- ===== src/Conversation/State/Kept.antt =====
-- src/services/protocol/conversation.rs: what a stream keeps of a conversation.
use model2api.Common.{
  String, ◌≡◌, refl, true, false, not, ◌&&◌, ◌||◌, Option, none, some, List, [], ◌∷◌, ◌++◌, ◌==◌,
  if◌then◌else◌, elem, Bool-cases, inl, inr, arith, eq_iff,
}
use model2api.Json.{Fields, Host, get_field, get_value, bind_option}
use model2api.Conversation.{Patterns, text_of}
use model2api.Conversation.State.{
  ConversationState, add_unique, extract_conversation_ids, update_state, with_ids, with_event,
  image_context, first_text,
}

-- No identifier is empty or stands twice.
abbrev pub IsUnique : List String → Type 0
IsUnique [] = Unit
IsUnique (x ∷ xs) = ((x == "") ≡ false) × (elem x xs ≡ false) × IsUnique xs

-- The identifiers are kept, and stay unique.
abbrev pub Extended : List String → List String → Type 0
Extended xs ys = (IsUnique xs → IsUnique ys) × ((x : String) → elem x xs ≡ true → elem x ys ≡ true)

elem-snoc : (x c : String) (xs : List String) → elem x (xs ++ (c ∷ [])) ≡ (elem x xs || c == x)
elem-snoc x c [] = ground arith
elem-snoc x c (y ∷ xs) = ground (arith, elem-snoc x c xs)

snoc-IsUnique :
    (c : String) (xs : List String)
    → (c == "") ≡ false
    → elem c xs ≡ false
    → IsUnique xs
    → IsUnique (xs ++ (c ∷ []))
snoc-IsUnique c [] named new u = (named, refl, tt)
snoc-IsUnique c (x ∷ xs) named new u =
    ground (arith, eq_iff x c, eq_iff c x, elem-snoc x c xs, snoc-IsUnique c xs named)

step-Extended :
    (c : String) (xs : List String)
    → Extended xs (if not (c == "") && not (elem c xs) then xs ++ (c ∷ []) else xs)
step-Extended c xs = elim (Bool-cases (c == "")) [
  | inl blank ↦ rw blank (λ u. u, λ x e. e)
  | inr named ↦ elim (Bool-cases (elem c xs)) [
    | inl there ↦ rw (named, there) (λ u. u, λ x e. e)
    | inr new ↦ rw (named, new) (snoc-IsUnique c xs named new, λ x e. rw (elem-snoc x c xs, e) refl)
  ]
]

add_unique-Extended : (xs cs : List String) → Extended xs (add_unique xs cs)
unfolding add_unique
add_unique-Extended xs [] = (λ u. u, λ x e. e)
add_unique-Extended xs (c ∷ cs) =
    let next = if not (c == "") && not (elem c xs) then xs ++ (c ∷ []) else xs in
    let one = step-Extended c xs in
    let more = add_unique-Extended next cs in (λ u. more.0 (one.0 u), λ x e. more.1 x (one.1 x e))

-- A conversation that has its identifier keeps one, a block stays, and identifiers are only added.
abbrev pub Kept : ConversationState → ConversationState → Type 0
Kept s t =
    ((s.conversation_id == "") ≡ false → (t.conversation_id == "") ≡ false)
    × (s.blocked ≡ true → t.blocked ≡ true)
    × Extended s.file_ids t.file_ids
    × Extended s.sediment_ids t.sediment_ids

pub Kept-trans : (s t u : ConversationState) → Kept s t → Kept t u → Kept s u
Kept-trans s t u a b = (
  λ e. b.0 (a.0 e),
  λ e. b.1 (a.1 e),
  (λ e. b.2.0 (a.2.0 e), λ x e. b.2.1 x (a.2.1 x e)),
  (λ e. b.3.0 (a.3.0 e), λ x e. b.3.1 x (a.3.1 x e)),
)

pub Kept-refl : (s : ConversationState) → Kept s s
Kept-refl s = (λ e. e, λ e. e, (λ e. e, λ x e. e), (λ e. e, λ x e. e))

first_text-named : (t u : String) → (u == "") ≡ false → (first_text t u == "") ≡ false
first_text-named t u h = ground arith

kept_text : (t u : String) → (t == "") ≡ false → (first_text t u == "") ≡ false
kept_text t u h = ground arith

with_ids-Kept :
    (h : Host) (r : Patterns) (payload : String) (event : Option Fields) (s : ConversationState)
    → Kept s (with_ids h r payload event s)
unfolding with_ids
with_ids-Kept h r payload event s =
    let found = extract_conversation_ids r payload in
    elim (Bool-cases (image_context h s payload event)) [
      | inl mine ↦
          rw (with_ids, mine)
            (
              kept_text s.conversation_id found.0,
              λ e. e,
              add_unique-Extended s.file_ids found.1,
              add_unique-Extended s.sediment_ids found.2,
            )
      | inr other ↦
          rw (with_ids, other)
            (kept_text s.conversation_id found.0, λ e. e, (λ e. e, λ x e. e), (λ e. e, λ x e. e))
    ]

with_event-Kept : (event : Fields) (s : ConversationState) → Kept s (with_event event s)
unfolding with_event
with_event-Kept event s = (
  λ e.
      let outer = text_of (get_field "conversation_id" event) in
      let inner = text_of (bind_option (get_field "v" event) (get_value "conversation_id")) in
      first_text-named inner (first_text outer s.conversation_id)
        (first_text-named outer s.conversation_id e),
  λ e. ground arith,
  (λ e. e, λ x e. e),
  (λ e. e, λ x e. e),
)

pub update_state-Kept :
    (h : Host) (r : Patterns) (payload : String) (event : Option Fields) (s : ConversationState)
    → Kept s (update_state h r payload event s)
unfolding update_state
update_state-Kept h r payload none s = with_ids-Kept h r payload none s
update_state-Kept h r payload (some event) s =
    Kept-trans s (with_ids h r payload (some event) s)
      (with_event event (with_ids h r payload (some event) s))
      (with_ids-Kept h r payload (some event) s)
      (with_event-Kept event (with_ids h r payload (some event) s))
