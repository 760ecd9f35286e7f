-- ===== src/Lib.antt =====
-- A model of parts of model2api: the account pool, the text and image conversations, the Anthropic
-- messages, the answer cache, the content filter, the user keys, the pending logins, the image tasks
-- and the image tags. The program is the gateway that serves OpenAI- and Anthropic-shaped requests
-- from a pool of ChatGPT accounts.
--
-- The program. `src/main.rs` wires a set of services. The API handlers of `src/api` decode requests
-- and hand them to the protocol translators of `src/services/protocol`, which ask the account pool,
-- `src/services/account_service.rs`, for the token of an account, call ChatGPT with it through
-- `src/services/openai_backend_api`, and report the outcome to the pool. The pool is what all requests
-- share: it decides which account serves which request, limits how many images an account makes at
-- once, keeps the quota and the status of each account, follows the access tokens through their
-- refreshes, and stores the accounts after each change. A text answer is decoded from the events of
-- ChatGPT by `src/services/protocol/conversation.rs`. Text answers go through the cache of
-- `src/services/protocol/chat_completion_cache.rs`, which keeps them for a time and lets equal
-- requests share one computation. A request is reviewed by `src/services/content_filter.rs`, and let
-- in by the keys of `src/services/auth_service.rs`, which keeps them in a storage back end of
-- `src/services/storage`. Accounts are added by a login at OpenAI, whose pending sessions
-- `src/services/oauth_login_service.rs` keeps. Images that take long are made by the tasks of
-- `src/services/image_task_service.rs`, each with a run in the background, and
-- `src/services/image_tags_service.rs` keeps the tags that users give to images. This library models
-- these services. An image is asked for by `generate_single_image` of `conversation.rs`, which goes
-- from account to account and gives each image slot back to the pool. The deltas of a text
-- conversation become the events of the Anthropic interface in
-- `src/services/protocol/anthropic_v1_messages.rs`.
--
-- How it is modelled. `AccountService` keeps its state, the struct `Pool`, behind one mutex. A call
-- that changes it is a function from the service to the service and its answer, and stands for one
-- critical section: the state between two calls may be changed by any other call, which the step
-- relations of `Account.Run` and `Account.Slots.Bounds` quantify over. A call whose source takes the
-- lock more than once (`mark_image_result`, `remove_invalid_token`) is a composition of calls that
-- are steps of their own. What leaves the service (saving the accounts and the cumulative total, log
-- lines, waking the waiting tasks) is a list of effects in the order of the calls.
--
--   * Common       the shared tests on numbers, texts and options, lists, `i64` with its wrap-around,
--                  the trimming of texts, and association lists with their laws
--   * Json         the values of serde_json and the helpers `s`, `s_trim` and `merge_objects`
--   * Account/State       `Pool` and the effects
--   * Account/Invariant   what a well-formed pool is
--   * Account/Normalize   `normalize_account`, a function for each group of its statements, with
--                         `normalize_account_type` and `normalize_source_type`
--   * Account/Resolve     `resolve_locked`, `resolve_access_token`, `get_account`
--   * Account/Matching    the tests on an account and the lists of candidates
--   * Account/Slots       `acquire_next_candidate_token`, `release_image_slot` and the choice of
--                         `get_text_access_token`
--   * Account/Updates     `update_account`, `mark_image_result`, `mark_text_used`
--   * Account/Members     `add_accounts`, `add_account_items`, `add_account_payloads`,
--                         `delete_accounts`, `remove_invalid_token`
--   * Account/Refresh     `apply_refreshed_tokens`, the records of refresh failures and of invalid
--                         tokens, `should_defer_invalid_token`
--   * Account/Progress    the progress tables of the bulk refresh and of the logins
--   * Account/Stats       the lists of accounts and tokens, `get_stats`, `account_health`
--   * Account/Fetch       the calls that talk to the upstream: `refresh_access_token`,
--                         `get_text_access_token`, `fetch_remote_info` and
--                         `get_available_access_token`
--   * Account/Run         the calls as steps, and runs of them
--   * Cache        `ChatCompletionCache`: `prune_locked`, the two critical sections of
--                  `get_or_compute_response`, `canonical_body`, `normalize_text_messages`
--   * ImageTags    `ImageTagsService`, over a disk that is a parameter
--   * Storage      the part of the trait `StorageBackend` that the keys use, and what it promises
--   * Storage/JsonFile    `JsonStorageBackend`, over a disk that is a parameter
--   * Auth         the records of `AuthService`, `load`, `save` and the tests for names and hashes,
--                  over any storage back end
--   * Auth/Create         `create_key`
--   * Auth/Change         `update_key`, `delete_key`, `authenticate`
--   * Tasks        `public_task`, `parse_timestamp` and the texts of a task
--   * Tasks/Stored        `load_tasks`, `save_tasks`, `recover_unfinished`, `cleanup_tasks`
--   * Tasks/Service       `new`, `submit`, `list_tasks`, `get_task`, `cleanup`
--   * Tasks/Running       `update_task`, `run_task` before and after the flow of the image, `log_call`
--   * Tasks/Jobs          the calls and the runs of the tasks as steps, and sequences of them
--   * Conversation        `sanitize_output_text` and the history of the assistant
--   * Conversation/Messages   `message_text`, `normalize_messages`, `messages_for_request`
--   * Conversation/Patches    the text of an event: `assistant_raw_text`, `apply_text_patch`,
--                         `strip_history`, `event_assistant_text`
--   * Conversation/State  `ConversationState`, `update_state` and the tests on an event
--   * Conversation/Decoder    `ConversationDecoder::push` and the loop of `run_text_stream`
--   * Conversation/Rotation   `run_text_stream` with its errors and `stream_text_deltas`, over any
--                         account service, and over the pool
--   * Images       the requests and errors of an image conversation
--   * Images/Names        the names of image models, in `src/utils/helper.rs`
--   * Images/Output       `ImageOutput`
--   * Images/Formats      the prompt, the images of a response, `format_image_result`
--   * Images/Picture      `stream_image_outputs`, `stream_codex_image_outputs`: one call for an image
--   * Images/Single       `generate_single_image`: the rounds of an image, over any account service
--   * Images/Pooled       `stream_image_outputs_with_pool`, `collect_image_outputs`,
--                         `stream_image_chunks`
--   * Images/Served       the image flow over the pool
--   * Anthropic    the requests of `anthropic_v1_messages.rs`: the prompt of the tools, the system text
--                         and the messages
--   * Anthropic/Content   `content_blocks`, `message_response`, `messages_once`
--   * Anthropic/Stream    `messages_stream` and `anthropic_sse_event`; its child `Phases` is the order of
--                         events that a client reads
--   * ContentFilter       `check_request` of `src/services/content_filter.rs` and what it calls
--   * Login        `OAuthLoginService`: `purge_expired`, `start`, `finish` and what they call
--   * Tests        concrete pools, tables and streams
--
-- The modules below one of these hold its proofs. The maps of the source are association lists in
-- which an insertion replaces in place; none of the modelled code depends on the order, except that
-- the candidates stand in the order of the accounts, as in the `IndexMap` of the source, and that
-- tasks of equal dates are listed in the order of the table.
--
-- Numbers. An `i64` is an integer that wraps at 2 ^ 63, as a release build does; the round-robin
-- index is a natural number modulo 2 ^ 64. Natural numbers that count accounts do not wrap.
--
-- Parameters. `Host` holds what the code takes from libraries: the printing of a JSON value, the lower
-- and upper case of a text, the hash behind `anonymize_token`, and the parsing of dates by chrono;
-- `Clock` holds the readings of the clock that one call makes. `Disk` is the file of the image tags,
-- of which the properties assume that it gives back the object that was stored, and `Files` the files
-- of the JSON back end, with the same assumption. The properties of the pool, the cache and the tasks
-- assume nothing of `Host`; those of the keys assume that the two roles are in lower case, that a hash
-- is a text that is not blank and has no space around it, and that numbers are printed differently.
-- `Draw` holds the identifier and the time that a call draws, which are texts of that kind too, and
-- the random texts of `create_key` are a list of draws: the model tells where it is used up.
-- `Patterns` holds the regular expressions of a conversation and the reading of a payload; only the
-- property of an answer in pieces assumes something of them, how the payloads of the pieces are read
-- and that their text has no marks to replace. In `Login`, the reading of a URL, the exchange of a
-- code and what a start draws are arguments. `Times` holds what the tasks take from floats and from
-- dates. `Upstream` holds what the calls of the pool on ChatGPT are answered, with what other tasks do
-- to the pool while a call waits: any function. `Backend` holds the answers for one image with one
-- account, `ImageStorage` base64 and the store of images, and `Replies` two regular expressions.
-- `Accounts` and `TextAccounts` are the account service as the flows call it; nothing is assumed of
-- it, except that the theorem on the end of a text conversation has a list of the tokens that come up
-- in it. `Markup` holds the regular expressions of the calls of tools, the reading of a call,
-- identifiers and counts of tokens of the Anthropic interface. `Reviewer` holds the pattern of data
-- URIs and the service that reviews a text. The receiver of a channel is a number, the items that it
-- takes before it is gone.
--
-- Fuel. The loop of `resolve_locked` follows aliases until it finds an account, no alias, or a token
-- that it has seen. It runs on one round more than there are aliases: a round that goes on has
-- consumed an alias that it did not consume before, so that the loop always ends by one of its own
-- tests. `acquire_next_candidate_token` waits for other tasks; it is a recursion over the pools that
-- it finds when it is woken.
--
-- A call for a slot waits for a given number of wake-ups; what it answers behind them is the parameter
-- `outlasts`. The rounds of an image run on fuel: at most thirteen of them are retries, and a theorem
-- gives the rounds that are enough. The rounds of a text conversation run on fuel too, and end within
-- one round more than there are tokens that come up; the source goes on for as long as the upstream
-- rejects each token and a refresh brings another one. The waits between two tries are left out.
--
-- The search of `build_default_name` runs on one round more than there are keys, and the theorem on
-- it shows that one of them finds a free name.
--
-- The loop of `strip_history` runs on one round for each byte of the text, and each round takes one
-- at least. The patches of a text are walked by recursion on the JSON value.
--
-- The eviction loop of `prune_locked` runs on one round for each entry, and each round takes one
-- away. A time of the cache is a natural number of milliseconds where the source has a float of
-- seconds, like a time of a login, and a time of a task an integer of milliseconds.
--
-- Not modelled. In the cache: the wake-up of the calls that wait, the hash of a key, and the streams
-- that are packed into a cached value. In the pool: the bulk refresh, the keep-alive and the export of
-- tokens. The list of all tags, since its order hangs on how serde_json removes a field. In a text
-- conversation: the counts of tokens. In the content filter: the text and the shape of a request, and
-- the lines of the log. In the Anthropic messages: the parsing of the calls of tools in a text. In an
-- image conversation: how the rounds of parallel tasks interleave; what they answer is any value here,
-- as the outcome of a flow is for a task. The database and git back ends, and the calls of a back end
-- for accounts, which are effects of the pool. The other services; the web front end. A rotation of a
-- token adds the slots in use of the old token to those of the new one, which may exceed the limit, so
-- that the bound on slots is stated for requests that take and release slots and not for rotations.
pub mod Common
pub mod Json
pub mod Account
pub mod Cache
pub mod ImageTags
pub mod Storage
pub mod Auth
pub mod Tasks
pub mod Conversation
pub mod Login
pub mod Images
pub mod Anthropic
pub mod ContentFilter
pub mod Tests
