-- ===== src/Cdp/Client.antt =====
-- src/core/cdp/relay.ts: `updateMappings` and what it calls, `closeClient`, and the tombstones of calls that
-- timed out.
pub mod Mapped
use browserlogin_client.Prelude.{
  ℕ, zero, suc, ◌+◌, ◌-◌, String, Bool, true, false, not, Option, none, some, List, [], ◌∷◌, ◌++◌,
  ◌&&◌, ◌||◌, ◌==◌, leb, ltb, str_eq, opt_eq, if◌then◌else◌, is_some, any, length,
}
use browserlogin_client.Cdp.Message.{
  CallId, natural, below, text, id_eq, Parsed, Message, is_method,
}
use browserlogin_client.Cdp.State.{
  Operation, Sent, Client, max_tombstones, has, without, without_session, target_of, without_pair,
  sessions_of,
}

-- addMapping
unfoldable pub add_mapping : String → String → Client → Client
add_mapping s t c = record c {
  session_targets = (s, t) ∷ without_session s c.session_targets;
  target_sessions = (t, s) ∷ without_pair t s c.target_sessions;
}

unfoldable pub drop_from : Option String → String → Client → Client
drop_from none s c = c
drop_from (some t) s c =
    if str_eq t "" then c else record c { target_sessions = without_pair t s c.target_sessions }

-- removeMapping
unfoldable pub remove_mapping : String → Client → Client
unfolding drop_from
remove_mapping s c =
    drop_from (target_of s c.session_targets) s
      (record c { session_targets = without_session s c.session_targets })

unfoldable pub remove_mappings : List String → Client → Client
remove_mappings [] c = c
remove_mappings (s ∷ ss) c = remove_mappings ss (remove_mapping s c)

abbrev pub cancel_if : (Operation → Bool) → Option Operation → Option Operation
cancel_if p none = none
cancel_if p (some o) = some (record o { cancelled = o.cancelled || p o })

-- cancelSessionOperations
unfoldable pub cancel_session_operations : String → Client → Client
cancel_session_operations s c = record c {
  running = cancel_if (λ o. opt_eq o.message.session (some s)) c.running;
}

-- cancelSession
unfoldable pub cancel_session : String → Client → Client
cancel_session s c = remove_mapping s (cancel_session_operations s c)

-- cancelTarget
unfoldable pub cancel_target : String → Client → Client
cancel_target t c =
    remove_mappings (sessions_of t c.target_sessions)
      (record c { running = cancel_if (λ o. opt_eq o.target (some t)) c.running })

unfoldable pub attach_of : CallId → List (CallId × String) → Option String
attach_of i [] = none
attach_of i ((j, t) ∷ ps) = if id_eq j i then some t else attach_of i ps

unfoldable pub without_attach : CallId → List (CallId × String) → List (CallId × String)
without_attach i [] = []
without_attach i ((j, t) ∷ ps) =
    let rest = without_attach i ps in if id_eq j i then rest else (j, t) ∷ rest

unfoldable pub map_both : Option String → Option String → Client → Client
map_both (some s) (some t) c = add_mapping s t c
map_both _ _ c = c

-- A pending attach is answered.
unfoldable pub attached_to : Option String → CallId → Message → Client → Client
attached_to none i m c = c
attached_to (some t) i m c =
    if str_eq t ""
    then c
    else map_both m.parsed.result_session (some t)
        (record c { pending_attach = without_attach i c.pending_attach })

unfoldable pub note_attached : Option CallId → Message → Client → Client
unfolding attached_to
note_attached none m c = c
note_attached (some i) m c = attached_to (attach_of i c.pending_attach) i m c

abbrev pub when_text : Option String → (String → Client → Client) → Client → Client
when_text none f c = c
when_text (some s) f c = f s c

-- The methods that `updateMappings` reads.
unfoldable pub note_method : Message → Client → Client
note_method m c =
    if is_method m.method "Target.attachedToTarget"
    then map_both m.parsed.session_param m.parsed.info_target c
    else if is_method m.method "Target.detachedFromTarget"
    then when_text m.parsed.session_param cancel_session c
    else if is_method m.method "Target.targetDestroyed"
    then when_text m.parsed.target cancel_target c
    else if is_method m.method "Page.frameNavigated"
    then when_text m.session cancel_session_operations c
    else c

-- updateMappings
unfoldable pub update_mappings : Message → Client → Client
update_mappings m c = note_method m (note_attached m.id m c)

-- `send` to the client's socket.
unfoldable pub send_client : Sent → Client → Client
send_client x c = if c.socket_open then record c { to_client = x ∷ c.to_client } else c

-- closeClient
unfoldable pub close_client : Client → Client
close_client c = if c.closed then c else record c {
  closed = true;
  pending = [];
  tombstones = [];
  internal_ids = [];
  running = cancel_if (λ _. true) c.running;
  pending_attach = [];
  session_targets = [];
  target_sessions = [];
  socket_open = false;
  upstream_open = false;
}

-- The oldest of a list whose newest stands first, and the list without it.
abbrev pub newest : ℕ → List ℕ → List ℕ
newest zero ns = []
newest (suc k) [] = []
newest (suc k) (n ∷ ns) = n ∷ newest k ns

abbrev pub beyond : ℕ → List ℕ → List ℕ
beyond zero ns = ns
beyond (suc k) [] = []
beyond (suc k) (n ∷ ns) = beyond k ns

unfoldable pub without_all : List ℕ → List ℕ → List ℕ
without_all [] ns = ns
without_all (m ∷ ms) ns = without m (without_all ms ns)

-- addTombstone: the id joins the tombstones, and the oldest of more than 64 go, with their ids.
unfoldable pub add_tombstone : ℕ → Client → Client
add_tombstone n c =
    let all_ = if has n c.tombstones then c.tombstones else n ∷ c.tombstones in
    record c {
      tombstones = newest max_tombstones all_;
      internal_ids = without_all (beyond max_tombstones all_) c.internal_ids;
    }

-- The timer of a tombstone.
unfoldable pub expire : ℕ → Client → Client
expire n c =
    if has n c.tombstones
    then record c { tombstones = without n c.tombstones; internal_ids = without n c.internal_ids }
    else c
