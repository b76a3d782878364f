-- ===== src/Cdp/Message.antt =====
-- src/core/cdp/relay.ts: the frames of the relay and their check, `validate`. A frame is
-- given as JSON.parse reads it, by the fields that the relay looks at.
use browserlogin_client.Prelude.{
  ℕ, ◌*◌, String, Bool, true, false, Option, none, some, ◌&&◌, ◌||◌, ◌==◌, leb, ltb, str_eq,
  if◌then◌else◌,
}
use browserlogin_client.Recovery.Text.{codes, units}

-- A JSON number or text that is an id: a natural, one below 0 (`below n` is -1 - n), or a text.
pub data CallId : Type 0 where
  natural below : ℕ → CallId
  text : String → CallId

abbrev pub id_eq : CallId → CallId → Bool
id_eq (natural m) (natural n) = m == n
id_eq (below m) (below n) = m == n
id_eq (text s) (text t) = str_eq s t
id_eq _ _ = false

-- A field of a JSON object: not there, of another type than the relay wants, or a value.
pub data Field {ℓ} (A : Type ℓ) : Type ℓ where
  missing ill_typed : Field A
  value : A → Field A

-- An object of the protocol. `target` and `session_param` are `params.targetId` and `params.sessionId`
-- where they are texts, `info_target` is `params.targetInfo.targetId`, `result_session` is
-- `result.sessionId`; `has_params` says of what type `params` is, `error` whether `error` is truthy and
-- `result` whether `result` is an object; `content` stands for all the rest.
pub record Parsed : Type 0 where
  pub id : Field CallId
  pub method : Field String
  pub has_params : Field (Unit {0})
  pub session : Field String
  pub target : Option String
  pub session_param : Option String
  pub info_target : Option String
  pub result_session : Option String
  pub error : Bool
  pub result : Bool
  pub content : ℕ

-- A frame from a socket: binary, or a text of so many bytes, which may be an object.
pub data Frame : Type 0 where
  binary : Frame
  utf8 : (bytes : ℕ) → Option Parsed → Frame

-- A message that `validate` accepted.
pub record Message : Type 0 where
  pub id : Option CallId
  pub method : Option String
  pub session : Option String
  pub parsed : Parsed

-- MAX_CDP_MESSAGE_BYTES
abbrev pub max_message_bytes : ℕ
max_message_bytes = 16 * 1024 * 1024

-- isId; `Number.isSafeInteger` is a bound of 2^53 - 1.
unfoldable pub is_id : CallId → Bool
is_id (natural n) = leb n 9007199254740991
is_id (below n) = ltb n 9007199254740991
is_id (text s) = let n = units (codes s) in leb 1 n && leb n 256

abbrev short_text : String → Bool
short_text s = let n = units (codes s) in leb 1 n && leb n 256

-- A field is fine if it is not there or holds what is wanted.
abbrev pub fine {ℓ} : {A : Type ℓ} → (A → Bool) → Field A → Bool
fine p missing = true
fine p ill_typed = false
fine p (value a) = p a

abbrev pub present {ℓ} : {A : Type ℓ} → Field A → Bool
present missing = false
present _ = true

abbrev pub held {ℓ} : {A : Type ℓ} → Field A → Option A
held (value a) = some a
held _ = none

unfoldable pub accepted : Parsed → Bool
accepted p =
    (present p.id || present p.method)
    && (fine is_id p.id
        && (fine short_text p.method
            && (fine (λ _. true) p.has_params && fine short_text p.session)))

abbrev pub message_of : Parsed → Message
message_of p = record {
  id = held p.id;
  method = held p.method;
  session = held p.session;
  parsed = p;
}

abbrev checked : Option Parsed → Option Message
checked none = none
checked (some p) = if accepted p then some (message_of p) else none

-- validate; none is a throw.
unfoldable pub validate : Frame → Option Message
validate binary = none
validate (utf8 bytes p) = if ltb max_message_bytes bytes then none else checked p

abbrev pub is_method : Option String → String → Bool
is_method none name = false
is_method (some m) name = str_eq m name

-- INTERCEPTED_INPUT_METHODS
unfoldable pub is_input : Option String → Bool
is_input m =
    is_method m "Input.dispatchMouseEvent"
    || (is_method m "Input.dispatchKeyEvent"
        || (is_method m "Input.insertText" || is_method m "Input.dispatchTouchEvent"))

-- `directFallback`, with its defaults put in.
pub record Fallback : Type 0 where
  pub keyboard : Bool
  pub mouse : Bool
  pub touch : Bool

-- fallbackAllowed
unfoldable pub fallback_allowed : Option String → Fallback → Bool
fallback_allowed m f =
    if is_method m "Input.dispatchKeyEvent" || is_method m "Input.insertText"
    then f.keyboard
    else if is_method m "Input.dispatchMouseEvent"
    then f.mouse
    else f.touch
