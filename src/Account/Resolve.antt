-- ===== src/Account/Resolve.antt =====
-- src/services/account_service.rs: `resolve_locked`, `resolve_access_token`, `get_account`. The loop
-- runs on fuel, one round more than there are aliases: Resolve/Ends shows that it ends by its test.
pub mod Ends
pub mod Rotation
pub mod Trail
use model2api.Common.{
  ℕ, zero, suc, String, Bool, true, false, not, ◌&&◌, Option, none, some, List, [], ◌∷◌, ◌==◌,
  if◌then◌else◌, elem, length, option_or, trim,
}
use model2api.Common.Maps.{Map, get, contains_key}
use model2api.Json.{Fields}
use model2api.Account.State.{Pool}

-- The test of the `while`, after `!token.is_empty()`, `accounts`, `token_aliases` and `seen`.
pub follows : Pool → String → List String → Bool
follows p token seen =
    not (token == "")
    && not (contains_key token p.accounts)
    && contains_key token p.token_aliases
    && not (elem token seen)

pub next_token : Pool → String → String
next_token p token = option_or token (get token p.token_aliases)

pub resolve_loop : ℕ → Pool → String → List String → String
resolve_loop zero p token seen = token
resolve_loop (suc fuel) p token seen =
    let rest = resolve_loop fuel p (next_token p token) (token ∷ seen) in
    if follows p token seen then rest else token

unfoldable pub resolve_locked : Pool → String → String
unfolding resolve_loop follows next_token
resolve_locked p access_token = resolve_loop (suc (length p.token_aliases)) p (trim access_token) []

unfoldable pub resolve_access_token : Pool → String → String
resolve_access_token p access_token =
    if access_token == "" then "" else resolve_locked p access_token

unfoldable pub get_account : Pool → String → Option Fields
get_account p access_token =
    if access_token == "" then none else get (resolve_locked p access_token) p.accounts
