-- ===== src/Tests/Accounts.antt =====
-- The account pool: a pool of two accounts, one of them with a slot in use and an old token.
use model2api.Common.{
  ℕ, String, ◌≡◌, refl, true, false, some, none, [], ◌∷◌, pos, trim, elem, arith, ◌↔◌, replace_char,
}
use model2api.Common.Maps.{get}
use model2api.Json.{int, str, Fields, end, field, get_field, s}
use model2api.Account.State.{Pool, Service, Config, with_pool}
use model2api.Account.Invariant.{IsAccount, IsValid, IsBounded}
use model2api.Account.Normalize.{plain_host, normalize_account_type}
use model2api.Account.Matching.{
  Request, matches, list_ready_candidate_tokens, list_available_candidate_tokens, tokens_where,
}
use model2api.Account.Matching.Candidates.{Serves, list_ready_candidate_tokens_iff}
use model2api.Account.Resolve.{resolve_locked}
use model2api.Account.Resolve.Trail.{Trail}
use model2api.Account.Slots.{took, failed, waits, take_slot, acquire_round, release_image_slot}
use model2api.Account.Slots.Acquire.{Granted, acquire_round-Granted, acquire_round-Serves}
use model2api.Account.Slots.Bounds.{SlotRun, SlotRun-IsBounded}
use model2api.Account.Slots.Bounds

abbrev pub account_of : String → ℕ → Fields
account_of t q =
    field "access_token" (str t)
      (field "quota" (int (pos q)) (field "status" (str "正常") (field "type" (str "free") end)))

abbrev pub two_accounts : Pool
two_accounts = record {
  accounts = ("a", account_of "a" 2) ∷ ("b", account_of "b" 0) ∷ [];
  index = 3;
  image_inflight = ("a", pos 1) ∷ [];
  token_aliases = ("old", "a") ∷ [];
  cumulative_total = pos 2;
}

abbrev pub service : Service
service = record { pool = two_accounts; effects = [] }

abbrev pub config : Config
config = record {
  image_account_concurrency = pos 2;
  auto_remove_rate_limited_accounts = false;
  auto_remove_invalid_accounts = false;
}

abbrev any_account : Request
any_account = record { excluded = []; plan_type = none; source_type = none; plan_types = [] }

account_of-IsAccount_a : IsAccount "a" (account_of "a" 2)
unfolding get_field
account_of-IsAccount_a = record {
  token = refl;
  named = refl;
  quota_value = 2;
  quota = refl;
  quota_fits = omega arith;
  status = refl;
  kind = refl;
}

account_of-IsAccount_b : IsAccount "b" (account_of "b" 0)
unfolding get_field
account_of-IsAccount_b = record {
  token = refl;
  named = refl;
  quota_value = 0;
  quota = refl;
  quota_fits = omega arith;
  status = refl;
  kind = refl;
}

pub two_accounts-IsValid : IsValid two_accounts
unfolding get
two_accounts-IsValid = record {
  distinct = (refl, (refl, tt));
  accounts = (account_of-IsAccount_a, (account_of-IsAccount_b, tt));
}

two_accounts-IsBounded : IsBounded config two_accounts
two_accounts-IsBounded = omega arith

ready_test : list_ready_candidate_tokens plain_host any_account two_accounts ≡ "a" ∷ []
unfolding list_ready_candidate_tokens tokens_where matches get_field s
ready_test = refl

round_test :
    acquire_round plain_host config any_account two_accounts ≡ took "a" (take_slot "a" two_accounts)
unfolding acquire_round list_available_candidate_tokens list_ready_candidate_tokens tokens_where
    matches get get_field s take_slot
round_test = refl

resolve_test : resolve_locked two_accounts " old " ≡ "a"
unfolding resolve_locked get trim
resolve_test = refl

list_ready_candidate_tokens_iff_example :
    (elem "a" (list_ready_candidate_tokens plain_host any_account two_accounts) ≡ true)
    ↔ Serves (matches plain_host any_account) [] two_accounts.accounts "a"
list_ready_candidate_tokens_iff_example =
    list_ready_candidate_tokens_iff plain_host any_account two_accounts "a" two_accounts-IsValid

acquire_round-Granted_example :
    Granted plain_host config any_account two_accounts "a" (take_slot "a" two_accounts)
acquire_round-Granted_example =
    acquire_round-Granted plain_host config any_account two_accounts (take_slot "a" two_accounts)
      "a" two_accounts-IsValid round_test

a-Serves : Serves (matches plain_host any_account) [] two_accounts.accounts "a"
unfolding matches get get_field
a-Serves = record { item = account_of "a" 2; account = refl; passes = refl; admitted = refl }

acquire_round-Serves_example :
    (u : String) × (q : Pool) × (acquire_round plain_host config any_account two_accounts
      ≡ took u q)
acquire_round-Serves_example =
    acquire_round-Serves plain_host config any_account two_accounts "a" two_accounts-IsValid
      a-Serves (unfold get in refl)

-- Nobody is left when both tokens are excluded.
abbrev nobody : Request
nobody = record {
  excluded = "a" ∷ "b" ∷ [];
  plan_type = some "Plus";
  source_type = none;
  plan_types = [];
}

fails_test :
    acquire_round plain_host config nobody two_accounts ≡ failed "no available Plus image quota"
unfolding acquire_round list_available_candidate_tokens list_ready_candidate_tokens tokens_where
    matches normalize_account_type get get_field s trim replace_char
fails_test = refl

-- With one slot for each account, the only account that is ready is in use.
abbrev one_slot : Config
one_slot = record config { image_account_concurrency = pos 1 }

waits_test : acquire_round plain_host one_slot any_account two_accounts ≡ waits
unfolding acquire_round list_available_candidate_tokens list_ready_candidate_tokens tokens_where
    matches get get_field s
waits_test = refl

abbrev after_acquire : Service
after_acquire = with_pool service (take_slot "a" two_accounts)

SlotRun-IsBounded_example : IsBounded config (release_image_slot "old" after_acquire).pool
SlotRun-IsBounded_example =
    SlotRun-IsBounded plain_host config (omega arith) service
      (release_image_slot "old" after_acquire) two_accounts-IsBounded
      (Bounds.next
        (Bounds.next Bounds.here
          (Bounds.acquires any_account "a" (take_slot "a" two_accounts) round_test))
        (Bounds.releases "old"))
