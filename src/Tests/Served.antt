-- ===== src/Tests/Served.antt =====
-- The image flow over the account pool, where no other task makes a call: an image of a plan that no
-- account has.
use model2api.Common.{String, ◌≡◌, refl, false, Option, none, some, List, [], pos}
use model2api.Json.{Fields, Clock, end, get_field, s}
use model2api.Common.{trim, replace_char}
use model2api.Images.Names.{is_supported_image_model, split_image_model, is_codex_image_model}
use model2api.Images.Single.{generate_single_image, single_loop}
use model2api.Account.Fetch.{get_available_access_token}
use model2api.Account.Slots.{acquire_round}
use model2api.Account.Matching.{
  account_matches_plan_type, list_ready_candidate_tokens, tokens_where, matches,
}
use model2api.Account.Normalize.{normalize_account_type}
use model2api.Account.State.{Service}
use model2api.Account.Fetch.{Upstream}
use model2api.Images.{Result, ok, err, EngineError, ConversationRequest}
use model2api.Images.Picture.{Backend}
use model2api.Images.Pooled.{Item, Joined, stream_image_outputs_with_pool}
use model2api.Images.Served.{image_accounts}
use model2api.Tests.Accounts.{service, config}
use model2api.Tests.Streams.{stream_host}
use model2api.Tests.Pictures.{picture_deps, picture_backend, picture_request}

abbrev quiet_clock : Clock
quiet_clock = record {
  now_str = "2026-01-02 00:00:00";
  now_local_str = "2026-01-02 00:00:00";
  now_rfc3339 = "2026-01-02T00:00:00+00:00";
  now_millis = pos 1000;
}

abbrev quiet : Upstream
quiet = record {
  clock = λ s. quiet_clock;
  expires = λ token s. false;
  request_access_token_refresh = λ token account s. err "no answer";
  user_info = λ token account s. ok end;
  others = λ s. s;
  wakeups = 1;
  outlasts = λ r s. (err "still waiting", s);
}

abbrev backends : String → Fields → Service → Result EngineError Backend
backends token account s = ok picture_backend

abbrev no_tasks : Service → List Joined × Service
no_tasks s = ([], s)

abbrev one_picture : ConversationRequest
one_picture = record picture_request { model = "plus-codex-gpt-image-2"; n = pos 1 }

abbrev served : Option (List Item × Service)
served =
    stream_image_outputs_with_pool picture_deps (image_accounts stream_host config quiet backends)
      one_picture 14 no_tasks 5 service

abbrev items : List Item
items = elim served [ none ↦ [] | some r ↦ r.0 ]

abbrev last : Service
last = elim served [ none ↦ service | some r ↦ r.1 ]

served_test : served ≡ some (items, last)
unfolding stream_image_outputs_with_pool is_supported_image_model split_image_model trim
    generate_single_image single_loop get_available_access_token acquire_round
    list_ready_candidate_tokens tokens_where matches get_field is_codex_image_model
    account_matches_plan_type normalize_account_type replace_char
served_test = refl
