-- ===== src/Cdp/Relay.antt =====
-- src/core/cdp/relay.ts: `runInput`, `sendAndWait`, `handleClientMessage`, `handleUpstreamMessage` and the
-- connection of a client, as events: each is a piece of the code that runs without an await. A client's
-- frame comes when `client.ready` is there for it; a random draw of an internal id is an argument.
pub mod Answers
pub mod Order
pub mod Closed
use browserlogin_client.Prelude.{
  ℕ, String, Bool, true, false, not, Option, none, some, List, [], ◌∷◌, ◌++◌, ◌&&◌, ◌||◌, ◌==◌, ltb,
  if◌then◌else◌, is_some,
}
use browserlogin_client.Cdp.Message.{
  CallId, natural, below, text, Frame, Message, validate, is_method, is_input, Fallback,
  fallback_allowed, Parsed, max_message_bytes, binary, utf8,
}
use browserlogin_client.Cdp.Client.{
  update_mappings, send_client, close_client, add_tombstone, expire,
}
use browserlogin_client.Cdp.State.{
  Phase, executing, falling_back, Operation, Purpose, auto_attach, fallback_input, Sent, reply,
  passes, input_under, attach_under, Client, has, without, purpose_of, without_call, target_of,
}

abbrev target_for : Option String → List (String × String) → Option String
target_for none ps = none
target_for (some s) ps = target_of s ps

unfoldable pub run_input : Option CallId → Message → List Message → Client → Client
run_input none m ms c = record c { running = none; queue = ms }
run_input (some i) m ms c = record c {
  running = some (record {
    id = i;
    message = m;
    target = target_for m.session c.session_targets;
    cancelled = false;
    phase = executing;
  });
  queue = ms;
}

-- `runInput` up to its await of the worker: the next input of the chain, if the client is not closed.
unfoldable pub run_next : List Message → Client → Client
unfolding run_input
run_next [] c = record c { running = none; queue = [] }
run_next (m ∷ ms) c =
    if c.closed then record c { running = none; queue = [] } else run_input m.id m ms c

-- The input is answered, and the next one runs.
unfoldable pub answer : Operation → (failed : Bool) → Client → Client
unfolding run_next send_client
answer o failed c =
    let sent = send_client (reply o.id o.message.session failed) c in run_next sent.queue sent

-- `internalId`: the first draw that is neither an internal id nor pending.
unfoldable pub draw : List ℕ → Client → Option ℕ
draw [] c = none
draw (n ∷ ns) c =
    let next = draw ns c in
    if has n c.internal_ids || is_some (purpose_of n c.pending) then next else some n

-- `sendAndWait` with an internal id; the send may fail.
unfoldable pub call_upstream : ℕ → Purpose → Sent → Client → Client
call_upstream n p x c = record c { pending = (n, p) ∷ c.pending; to_upstream = x ∷ c.to_upstream }

-- The fallback of `runInput`, once an id is drawn.
unfoldable pub fall_back : Option ℕ → Operation → (sent : Bool) → Client → Client
unfolding answer
fall_back none o sent c = c
fall_back (some n) o sent c =
    let drawn = record c { internal_ids = n ∷ c.internal_ids } in
    if c.closed || not c.upstream
    then answer o true drawn
    else if sent
    then call_upstream n fallback_input (input_under n o.message)
        (record drawn { running = some (record o { phase = falling_back n }) })
    else answer o true drawn

-- How the race of the worker, its abort and the timeout ends.
pub data Outcome : Type 0 where
  executed gave_up : Outcome

-- `runInput` from its await of the worker on.
unfoldable pub after_worker :
    Outcome → Fallback → List ℕ → (sent : Bool) → Operation → Client → Client
unfolding fall_back answer
after_worker executed f draws sent o c = answer o false c
after_worker gave_up f draws sent o c =
    if o.cancelled
    then answer o false c
    else if fallback_allowed o.message.method f
    then fall_back (draw draws c) o sent c
    else answer o true c

abbrev pub at_worker : Phase → Bool
at_worker executing = true
at_worker (falling_back _) = false

-- An input sent on to the browser is rejected by `closeClient`.
unfoldable pub worker_settles :
    Outcome → Fallback → List ℕ → (sent : Bool) → Option Operation → Client → Client
unfolding after_worker
worker_settles w f draws sent none c = c
worker_settles w f draws sent (some o) c =
    if at_worker o.phase
    then after_worker w f draws sent o c
    else if c.closed
    then answer o true c
    else c

abbrev pub waits_for : ℕ → Phase → Bool
waits_for n executing = false
waits_for n (falling_back m) = m == n

-- The end of a fallback's `sendAndWait`.
unfoldable pub fallback_settles : (failed : Bool) → ℕ → Option Operation → Client → Client
unfolding answer
fallback_settles failed n none c = c
fallback_settles failed n (some o) c = if waits_for n o.phase then answer o failed c else c

-- The end of the auto-attach's.
unfoldable pub attach_settles : (failed : Bool) → Client → Client
attach_settles failed c = if failed then close_client c else record c { ready = true }

unfoldable pub call_settles : Purpose → (failed : Bool) → ℕ → Client → Client
unfolding fallback_settles attach_settles
call_settles auto_attach failed n c = attach_settles failed c
call_settles fallback_input failed n c = fallback_settles failed n c.running c

-- The timer of `sendAndWait`.
unfoldable pub call_times_out : ℕ → Option Purpose → Client → Client
unfolding call_settles
call_times_out n none c = c
call_times_out n (some p) c =
    let left = record c { pending = without_call n c.pending } in
    let buried = if has n c.internal_ids then add_tombstone n left else left in
    call_settles p true n buried

-- A frame of the client. An input joins the chain; any other message goes to the browser, if its socket is
-- open.
unfoldable pub enqueue_input : Message → CallId → Client → Client
unfolding run_next
enqueue_input m i c =
    let came = record c { arrived = c.arrived ++ (i ∷ []); queue = c.queue ++ (m ∷ []) } in
    if is_some c.running then came else run_next came.queue came

abbrev pub attach_to : Option CallId → Option String → Client → Client
attach_to (some i) (some t) c = record c { pending_attach = (i, t) ∷ c.pending_attach }
attach_to _ _ c = c

abbrev pub note_attach : Message → Client → Client
note_attach m c =
    if is_method m.method "Target.attachToTarget" then attach_to m.id m.parsed.target c else c

unfoldable pub pass_on : Message → (sent : Bool) → Client → Client
pass_on m sent c =
    let noted = note_attach m c in
    if not noted.upstream_open
    then noted
    else if sent
    then record noted { to_upstream = passes m ∷ noted.to_upstream }
    else close_client noted

unfoldable pub take_with : Option CallId → Message → (sent : Bool) → Client → Client
unfolding enqueue_input pass_on
take_with none m sent c = pass_on m sent c
take_with (some i) m sent c = if is_input m.method then enqueue_input m i c else pass_on m sent c

unfoldable pub take_message : Option Message → (sent : Bool) → Client → Client
unfolding take_with
take_message none sent c = close_client c
take_message (some m) sent c = take_with m.id m sent c

-- handleClientMessage, and before it the `message` listener, which closes on a frame that is too long.
unfoldable pub client_message : Frame → (sent : Bool) → Client → Client
unfolding take_message
client_message f sent c =
    if not c.ready || (c.closed || not c.upstream) then c else take_message (validate f) sent c

-- handleUpstreamMessage, for a message whose id is no internal one, or is.
abbrev pub failed_answer : Purpose → Message → Bool
failed_answer auto_attach m = m.parsed.error || not m.parsed.result
failed_answer fallback_input m = m.parsed.error

unfoldable pub answer_internal : Option Purpose → ℕ → Message → Client → Client
unfolding call_settles
answer_internal (some p) n m c =
    call_settles p (failed_answer p m) n
      (record c { pending = without_call n c.pending; internal_ids = without n c.internal_ids })
answer_internal none n m c =
    if has n c.internal_ids
    then record c { internal_ids = without n c.internal_ids; tombstones = without n c.tombstones }
    else send_client (passes m) c

unfoldable pub deliver : Option CallId → Message → Client → Client
unfolding answer_internal
deliver (some (below n)) m c = answer_internal (purpose_of n c.pending) n m c
deliver _ m c = send_client (passes m) c

unfoldable pub upstream_checked : Option Message → Client → Client
unfolding deliver
upstream_checked none c = close_client c
upstream_checked (some m) c = deliver m.id m (update_mappings m c)

unfoldable pub upstream_message : Frame → Client → Client
unfolding upstream_checked
upstream_message f c = upstream_checked (validate f) c

-- The upstream socket opens, and the auto-attach is sent.
unfoldable pub attach_with : Option ℕ → (sent : Bool) → Client → Client
attach_with none sent c = c
attach_with (some n) sent c =
    let drawn = record c {
      upstream = true;
      upstream_open = true;
      internal_ids = n ∷ c.internal_ids;
    } in
    if sent then call_upstream n auto_attach (attach_under n) drawn else close_client drawn

unfoldable pub upstream_opens : List ℕ → (sent : Bool) → Client → Client
unfolding attach_with
upstream_opens draws sent c =
    if c.closed || c.upstream then c else attach_with (draw draws c) sent c

pub data ClientEvent : Type 0 where
  opens : List ℕ → (sent : Bool) → ClientEvent
  connect_fails socket_closes floods : ClientEvent
  client_sends : Frame → (sent : Bool) → ClientEvent
  upstream_sends : Frame → ClientEvent
  settles : Outcome → Fallback → List ℕ → (sent : Bool) → ClientEvent
  times_out expires : ℕ → ClientEvent

unfoldable pub step : ClientEvent → Client → Client
step (opens draws sent) c = upstream_opens draws sent c
step connect_fails c = close_client c
step socket_closes c = close_client c
step floods c = close_client c
step (client_sends f sent) c = client_message f sent c
step (upstream_sends f) c = upstream_message f c
step (settles w f draws sent) c = worker_settles w f draws sent c.running c
step (times_out n) c = call_times_out n (purpose_of n c.pending) c
step (expires n) c = expire n c

unfoldable pub steps : List ClientEvent → Client → Client
steps [] c = c
steps (e ∷ es) c = steps es (step e c)
