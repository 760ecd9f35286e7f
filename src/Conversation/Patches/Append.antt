-- ===== src/Conversation/Patches/Append.antt =====
-- src/services/protocol/conversation.rs: an event that appends a piece to the text, the usual one.
use model2api.Common.{String, ◌≡◌, refl, append}
use model2api.Json.{Fields, Host, str, field, end, get_field}
use model2api.Conversation.Patches.{
  assistant_raw_text, whole_text, apply_text_patch, patched, apply_patch_op, patch_text,
  event_assistant_text, assistant_of,
}

abbrev pub append_event : String → Fields
append_event c =
    field "p" (str "/message/content/parts/0") (field "o" (str "append") (field "v" (str c) end))

pub raw_text-append_event :
    (h : Host) (c current history : String)
    → assistant_raw_text h (append_event c) current history ≡ append current c
unfolding assistant_raw_text whole_text apply_text_patch patched apply_patch_op patch_text get_field
raw_text-append_event h c current history = refl

pub assistant_text-append_event :
    (c history : String) → event_assistant_text (append_event c) history ≡ ""
unfolding event_assistant_text assistant_of get_field
assistant_text-append_event c history = refl
