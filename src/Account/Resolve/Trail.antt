-- ===== src/Account/Resolve/Trail.antt =====
-- What the answer of `resolve_locked` is: the end of the trail of aliases.
use model2api.Common.{String, ◌≡◌, true, false, ◌⊎◌, none, some}
use model2api.Common.Maps.{get, contains_key}
use model2api.Account.State.{Pool}

-- One rotation behind the other: `t` is no account any more, and its alias is `u`.
pub record Step (p : Pool) (t u : String) : Type 0 where
  pub gone : contains_key t p.accounts ≡ false
  pub leads : get t p.token_aliases ≡ some u

pub data Trail (p : Pool) (t : String) : String → Type 0 where
  one : {u : String} → Step p t u → Trail p t u
  more : {u v : String} → Trail p t u → Step p u v → Trail p t v

-- A token with which a look-up may end: empty, an account's, one with no alias, or one that the
-- aliases lead back to.
abbrev pub IsSettled : Pool → String → Type 0
IsSettled p t =
    (t ≡ "") ⊎ (contains_key t p.accounts ≡ true) ⊎ (get t p.token_aliases ≡ none) ⊎ Trail p t t
