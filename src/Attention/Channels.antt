-- ===== src/Attention/Channels.antt =====
-- src/core/attention/service.ts: what a request asks for, and the result of the channels that it uses.
use browserlogin_client.Prelude.{
  ℕ, String, Bool, true, false, Option, none, some, List, [], ◌∷◌, ◌&&◌, ◌||◌, leb, str_eq,
  if◌then◌else◌, any, all,
}
use browserlogin_client.Recovery.Text.{codes, units}
use browserlogin_client.Json.{Json, str, obj, Fields, end, field, get}

-- AttentionRequest
pub record Request : Type 0 where
  pub title : String
  pub message : String

-- `z.string().min(1).max(n)`
abbrev is_text : ℕ → Option Json → Bool
is_text n (some (str s)) = leb 1 (units (codes s)) && leb (units (codes s)) n
is_text n _ = false

-- `strict()`: no other key.
abbrev known_keys : Fields → Bool
known_keys end = true
known_keys (field k v fs) = (str_eq k "title" || str_eq k "message") && known_keys fs

abbrev text_of : Option Json → String
text_of (some (str s)) = s
text_of _ = ""

abbrev with_title : Option Json → Fields → Option Request
with_title none fs = some (record { title = "BrowserLogin"; message = text_of (get "message" fs) })
with_title (some t) fs =
    if is_text 80 (some t)
    then some (record { title = text_of (some t); message = text_of (get "message" fs) })
    else none

-- AttentionRequestSchema; none is a refusal.
unfoldable pub parse_request : Json → Option Request
parse_request (obj fs) =
    if known_keys fs && is_text 500 (get "message" fs) then with_title (get "title" fs) fs else none
parse_request _ = none

-- ATTENTION_RESULT_CODES
pub data Code : Type 0 where
  submitted_code partial disabled rate_limited unavailable_code failed_code invalid_input : Code
  cancelled_code : Code

-- AttentionChannelStatus
pub data Status : Type 0 where
  submitted unavailable failed skipped : Status

-- AttentionResult
pub record AttentionResult : Type 0 where
  pub code : Code
  pub audio : Status
  pub notification : Status

-- How an adapter's promise settles: AttentionOutcome, or a rejection.
pub data Outcome : Type 0 where
  was_submitted was_unavailable was_failed was_cancelled rejected : Outcome

-- attention_delivery
pub data Delivery : Type 0 where
  audio_only notification_only both : Delivery

-- `requestedChannels`: whether the sound is asked for, and whether the notification is.
unfoldable pub requested_channels : Delivery → Bool × Bool
requested_channels audio_only = (true, false)
requested_channels notification_only = (false, true)
requested_channels both = (true, true)

abbrev pub skipped_with : Code → AttentionResult
skipped_with code = record { code = code; audio = skipped; notification = skipped }

-- SettledChannel
pub record Settled : Type 0 where
  pub status : Status
  pub cancelled : Bool

-- settledChannel
unfoldable pub settled_channel : Bool → Outcome → Settled
settled_channel false o = record { status = skipped; cancelled = false }
settled_channel true rejected = record { status = failed; cancelled = false }
settled_channel true was_submitted = record { status = submitted; cancelled = false }
settled_channel true was_unavailable = record { status = unavailable; cancelled = false }
settled_channel true was_failed = record { status = failed; cancelled = false }
settled_channel true was_cancelled = record { status = skipped; cancelled = true }

abbrev is_submitted : Status → Bool
is_submitted submitted = true
is_submitted _ = false

abbrev is_unavailable : Status → Bool
is_unavailable unavailable = true
is_unavailable _ = false

abbrev unless_skipped : Status → List Status → List Status
unless_skipped skipped ss = ss
unless_skipped s ss = s ∷ ss

-- resultForChannels
unfoldable pub result_for_channels : Settled → Settled → AttentionResult
result_for_channels audio notification =
    let configured = unless_skipped audio.status (unless_skipped notification.status []) in
    if audio.cancelled || notification.cancelled
    then record { code = cancelled_code; audio = audio.status; notification = notification.status }
    else record {
      code =
          if all is_submitted configured
          then submitted_code
          else if any is_submitted configured
          then partial
          else if all is_unavailable configured
          then unavailable_code
          else failed_code;
      audio = audio.status;
      notification = notification.status;
    }

-- The end of `dispatch`: both promises have settled; a channel that is not asked for settles as cancelled.
unfoldable pub dispatched : Delivery → (audio notification : Outcome) → AttentionResult
unfolding requested_channels settled_channel result_for_channels
dispatched d audio notification =
    let (wants_audio, wants_notification) = requested_channels d in
    result_for_channels (settled_channel wants_audio (if wants_audio then audio else was_cancelled))
      (settled_channel wants_notification
        (if wants_notification then notification else was_cancelled))
