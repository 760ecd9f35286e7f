-- ===== src/Account/Slots.antt =====
-- src/services/account_service.rs: `acquire_next_candidate_token`, `release_image_slot` and the
-- choice of `get_text_access_token`. The index is a `usize` of 64 bits that wraps.
pub mod Acquire
pub mod Release
pub mod Bounds
use model2api.Common.{
  ℕ, ◌+◌, ◌%◌, String, Bool, true, false, not, ◌||◌, Option, none, some, List, [], ◌∷◌, ℤ, pos,
  ltb_ℤ, ◌+ℤ◌, ◌-ℤ◌, ◌==◌, if◌then◌else◌, length, get_elem?, option_or, append, u64_mod,
}
use model2api.Common.Maps.{Map, get, insert, remove}
use model2api.Json.{Fields, Host, text_at}
use model2api.Account.State.{Pool, Config, Service, notify_waiters, emit, with_pool}
use model2api.Account.Matching.{
  Request, tokens_where, list_ready_candidate_tokens, list_available_candidate_tokens, inflight,
}
use model2api.Account.Resolve.{resolve_locked}

-- `tokens[index % tokens.len()]`; "" stands for the index that no list in use can miss.
abbrev pub pick : List String → ℕ → String
pick tokens index = option_or "" (get_elem? tokens (index % length tokens))

-- One round of the loop under the lock: an error, a token with the pool that it leaves, or a wait
-- for a slot.
pub data Round : Type 0 where
  failed : String → Round
  took : String → Pool → Round
  waits : Round

abbrev pub label : Request → String
label r = elim r.plan_type [ some t ↦ t | none ↦ option_or "" r.source_type ]

pub no_quota : Request → String
no_quota r =
    if label r == ""
    then "no available image quota"
    else append "no available " (append (label r) " image quota")

-- The entry of `image_inflight` goes up by one, from 0 where there is none.
unfoldable pub take_slot : String → Pool → Pool
take_slot t p = record p {
  index = (p.index + 1) % u64_mod;
  image_inflight = insert t (inflight p t +ℤ pos 1) p.image_inflight;
}

acquire_from : Request → Pool → List String → List String → Round
unfolding no_quota take_slot
acquire_from r p [] available = failed (no_quota r)
acquire_from r p (t ∷ ready) [] = waits
acquire_from r p (t ∷ ready) (u ∷ available) =
    took (pick (u ∷ available) p.index) (take_slot (pick (u ∷ available) p.index) p)

unfoldable pub acquire_round : Host → Config → Request → Pool → Round
unfolding acquire_from
acquire_round h c r p =
    acquire_from r p (list_ready_candidate_tokens h r p) (list_available_candidate_tokens h c r p)

-- The whole loop, over the pools that it finds each time it takes the lock: what other tasks do
-- while it waits is in them. `waits` is left when the given wake-ups are used up.
unfoldable pub acquire_next_candidate_token : Host → Config → Request → List Pool → Round
acquire_next_candidate_token h c r [] = waits
acquire_next_candidate_token h c r (p ∷ later) =
    let next = acquire_next_candidate_token h c r later in
    elim (acquire_round h c r p) [ failed e ↦ failed e | took t q ↦ took t q | waits ↦ next ]

unfoldable pub release_slot : String → Pool → Pool
release_slot t p =
    if ltb_ℤ (pos 1) (inflight p t)
    then record p { image_inflight = insert t (inflight p t -ℤ pos 1) p.image_inflight }
    else record p { image_inflight = remove t p.image_inflight }

unfoldable pub release_image_slot : String → Service → Service
release_image_slot access_token s =
    if access_token == ""
    then s
    else emit notify_waiters
        (with_pool s (release_slot (resolve_locked s.pool access_token) s.pool))

-- The accounts that may serve text.
abbrev pub serves_text : Fields → Bool
serves_text account = not (text_at "status" account == "禁用" || text_at "status" account == "异常")

pub text_from : Pool → List String → Option (String × Pool)
text_from p [] = none
text_from p (t ∷ tokens) =
    some (pick (t ∷ tokens) p.index, record p { index = (p.index + 1) % u64_mod })

-- The choice of `get_text_access_token`; `none` is its empty answer.
unfoldable pub choose_text_token : Host → List String → Pool → Option (String × Pool)
choose_text_token h excluded p = text_from p (tokens_where h serves_text excluded p.accounts)
