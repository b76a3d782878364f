-- ===== src/Cdp/State.antt =====
-- src/core/cdp/relay.ts: the state of one client, and its sets and maps.
use browserlogin_client.Prelude.{
  ◌++◌, ℕ, String, Bool, true, false, Option, none, some, List, [], ◌∷◌, ◌&&◌, ◌||◌, ◌==◌, str_eq,
  if◌then◌else◌,
}
use browserlogin_client.Cdp.Message.{CallId, Message}

-- How far an input is: at the worker, or sent on to the browser under an internal id.
pub data Phase : Type 0 where
  executing : Phase
  falling_back : ℕ → Phase

-- Operation. `cancelled` says that it was aborted for the reason `lifecycle`.
pub record Operation : Type 0 where
  pub id : CallId
  pub message : Message
  pub target : Option String
  pub cancelled : Bool
  pub phase : Phase

-- What awaits the browser's answer: the auto-attach of the connection, or the input under way.
pub data Purpose : Type 0 where
  auto_attach fallback_input : Purpose

-- What the relay sends: to the client a reply of its own or a browser's message, to the browser
-- a client's message, an input under an internal id, or the auto-attach.
pub data Sent : Type 0 where
  reply : (id : CallId) (session : Option String) (failed : Bool) → Sent
  passes : Message → Sent
  input_under : ℕ → Message → Sent
  attach_under : ℕ → Sent

-- Client. An internal id -1 - n is n. `queue` is the chain of `inputTail` behind the input that runs;
-- `arrived` has the ids of the inputs that came, in order; what was sent stands last first.
pub record Client : Type 0 where
  pub upstream : Bool
  pub upstream_open : Bool
  pub socket_open : Bool
  pub ready : Bool
  pub closed : Bool
  pub running : Option Operation
  pub queue : List Message
  pub pending : List (ℕ × Purpose)
  pub pending_attach : List (CallId × String)
  pub session_targets : List (String × String)
  pub target_sessions : List (String × String)
  pub internal_ids : List ℕ
  pub tombstones : List ℕ
  pub to_client : List Sent
  pub to_upstream : List Sent
  pub arrived : List CallId

-- The ids of the relay's own replies among what it sent to the client, in the order in which it sent them.
abbrev pub replied : List Sent → List CallId
replied [] = []
replied (reply i session failed ∷ xs) = replied xs ++ (i ∷ [])
replied (passes m ∷ xs) = replied xs
replied (input_under n m ∷ xs) = replied xs
replied (attach_under n ∷ xs) = replied xs

-- newClient, once its socket is there.
abbrev pub new_client : Client
new_client = record {
  upstream = false;
  upstream_open = false;
  socket_open = true;
  ready = false;
  closed = false;
  running = none;
  queue = [];
  pending = [];
  pending_attach = [];
  session_targets = [];
  target_sessions = [];
  internal_ids = [];
  tombstones = [];
  to_client = [];
  to_upstream = [];
  arrived = [];
}

-- MAX_INTERNAL_TOMBSTONES
abbrev pub max_tombstones : ℕ
max_tombstones = 64

abbrev pub has : ℕ → List ℕ → Bool
has n [] = false
has n (m ∷ ms) = m == n || has n ms

-- `set.delete(n)`
unfoldable pub without : ℕ → List ℕ → List ℕ
without n [] = []
without n (m ∷ ms) = let rest = without n ms in if m == n then rest else m ∷ rest

unfoldable pub purpose_of : ℕ → List (ℕ × Purpose) → Option Purpose
purpose_of n [] = none
purpose_of n ((m, p) ∷ ps) = if m == n then some p else purpose_of n ps

unfoldable pub without_call : ℕ → List (ℕ × Purpose) → List (ℕ × Purpose)
without_call n [] = []
without_call n ((m, p) ∷ ps) =
    let rest = without_call n ps in if m == n then rest else (m, p) ∷ rest

-- `map.set(key, value)` on the mappings; the newest stands first.
unfoldable pub without_session : String → List (String × String) → List (String × String)
without_session s [] = []
without_session s ((t, v) ∷ ps) =
    let rest = without_session s ps in if str_eq t s then rest else (t, v) ∷ rest

unfoldable pub target_of : String → List (String × String) → Option String
target_of s [] = none
target_of s ((t, v) ∷ ps) = if str_eq t s then some v else target_of s ps

-- The pairs of a target and a session stand for the sets of sessions by target.
unfoldable pub without_pair : String → String → List (String × String) → List (String × String)
without_pair t s [] = []
without_pair t s ((u, v) ∷ ps) =
    let rest = without_pair t s ps in if str_eq u t && str_eq v s then rest else (u, v) ∷ rest

unfoldable pub sessions_of : String → List (String × String) → List String
sessions_of t [] = []
sessions_of t ((u, s) ∷ ps) = let rest = sessions_of t ps in if str_eq u t then s ∷ rest else rest
