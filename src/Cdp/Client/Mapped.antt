-- ===== src/Cdp/Client/Mapped.antt =====
-- What `updateMappings` leaves alone.
use browserlogin_client.Prelude.{
  String, Bool, true, Option, none, some, List, [], ◌∷◌, ◌≡◌, refl, ◌∙◌, if-cases, str_eq,
}
use browserlogin_client.Cdp.Message.{CallId, Message, is_method}
use browserlogin_client.Cdp.Client.{
  cancel_if, add_mapping, drop_from, remove_mapping, remove_mappings, cancel_session_operations,
  cancel_session, cancel_target, attached_to, note_attached, note_method, update_mappings,
  attach_of, without_attach, map_both, when_text,
}
use browserlogin_client.Cdp.State.{Operation, Client, target_of}

-- The input that runs, by its id.
abbrev pub running_ids : Option Operation → List CallId
running_ids none = []
running_ids (some o) = o.id ∷ []

abbrev pub Cancelled : Option Operation → Type 0
Cancelled none = Unit
Cancelled (some o) = o.cancelled ≡ true

-- Only the mappings differ, and the input that runs may be cancelled.
pub record Mapped (c d : Client) : Type 0 where
  pub closed : d.closed ≡ c.closed
  pub socket_open : d.socket_open ≡ c.socket_open
  pub pending : d.pending ≡ c.pending
  pub queue : d.queue ≡ c.queue
  pub to_client : d.to_client ≡ c.to_client
  pub to_upstream : d.to_upstream ≡ c.to_upstream
  pub arrived : d.arrived ≡ c.arrived
  pub running : running_ids d.running ≡ running_ids c.running
  pub cancelled : Cancelled c.running → Cancelled d.running

same : (c : Client) → Mapped c c
same c = record {
  closed = refl;
  socket_open = refl;
  pending = refl;
  queue = refl;
  to_client = refl;
  to_upstream = refl;
  arrived = refl;
  running = refl;
  cancelled = λ h. h;
}

then_ : (c d e : Client) → Mapped c d → Mapped d e → Mapped c e
then_ c d e h k = record {
  closed = k.closed ∙ h.closed;
  socket_open = k.socket_open ∙ h.socket_open;
  pending = k.pending ∙ h.pending;
  queue = k.queue ∙ h.queue;
  to_client = k.to_client ∙ h.to_client;
  to_upstream = k.to_upstream ∙ h.to_upstream;
  arrived = k.arrived ∙ h.arrived;
  running = k.running ∙ h.running;
  cancelled = λ x. k.cancelled (h.cancelled x);
}

cancel_if-ids :
    (p : Operation → Bool) (r : Option Operation) → running_ids (cancel_if p r) ≡ running_ids r
cancel_if-ids p none = refl
cancel_if-ids p (some o) = refl

cancel_if-Cancelled :
    (p : Operation → Bool) (r : Option Operation) → Cancelled r → Cancelled (cancel_if p r)
cancel_if-Cancelled p none h = tt
cancel_if-Cancelled p (some o) h = rw h refl

cancels :
    (p : Operation → Bool) (c : Client) → Mapped c (record c { running = cancel_if p c.running })
cancels p c = record {
  closed = refl;
  socket_open = refl;
  pending = refl;
  queue = refl;
  to_client = refl;
  to_upstream = refl;
  arrived = refl;
  running = cancel_if-ids p c.running;
  cancelled = cancel_if-Cancelled p c.running;
}

drop_from-Mapped : (o : Option String) (s : String) (c : Client) → Mapped c (drop_from o s c)
unfolding drop_from
drop_from-Mapped none s c = same c
drop_from-Mapped (some t) s c =
    if-cases (Mapped c) (str_eq t "") _ _ (λ _. same c)
      (λ _. record {
        closed = refl;
        socket_open = refl;
        pending = refl;
        queue = refl;
        to_client = refl;
        to_upstream = refl;
        arrived = refl;
        running = refl;
        cancelled = λ h. h;
      })

remove_mapping-Mapped : (s : String) (c : Client) → Mapped c (remove_mapping s c)
unfolding remove_mapping
remove_mapping-Mapped s c =
    then_ c (record c { session_targets = _ }) _
      (record {
        closed = refl;
        socket_open = refl;
        pending = refl;
        queue = refl;
        to_client = refl;
        to_upstream = refl;
        arrived = refl;
        running = refl;
        cancelled = λ h. h;
      })
      (drop_from-Mapped (target_of s c.session_targets) s _)

remove_mappings-Mapped : (ss : List String) (c : Client) → Mapped c (remove_mappings ss c)
unfolding remove_mappings
remove_mappings-Mapped [] c = same c
remove_mappings-Mapped (s ∷ ss) c =
    then_ c (remove_mapping s c) _ (remove_mapping-Mapped s c) (remove_mappings-Mapped ss _)

map_both-Mapped : (o p : Option String) (c : Client) → Mapped c (map_both o p c)
unfolding map_both add_mapping
map_both-Mapped none p c = same c
map_both-Mapped (some s) none c = same c
map_both-Mapped (some s) (some t) c = record {
  closed = refl;
  socket_open = refl;
  pending = refl;
  queue = refl;
  to_client = refl;
  to_upstream = refl;
  arrived = refl;
  running = refl;
  cancelled = λ h. h;
}

when_text-Mapped :
    (o : Option String) (f : String → Client → Client) (c : Client)
    → ((s : String) → Mapped c (f s c))
    → Mapped c (when_text o f c)
when_text-Mapped none f c h = same c
when_text-Mapped (some s) f c h = h s

cancel_operations-Mapped : (s : String) (c : Client) → Mapped c (cancel_session_operations s c)
unfolding cancel_session_operations
cancel_operations-Mapped s c = cancels _ c

cancel_session-Mapped : (s : String) (c : Client) → Mapped c (cancel_session s c)
unfolding cancel_session cancel_session_operations
cancel_session-Mapped s c = then_ c _ _ (cancels _ c) (remove_mapping-Mapped s _)

cancel_target-Mapped : (t : String) (c : Client) → Mapped c (cancel_target t c)
unfolding cancel_target
cancel_target-Mapped t c = then_ c _ _ (cancels _ c) (remove_mappings-Mapped _ _)

note_method-Mapped : (m : Message) (c : Client) → Mapped c (note_method m c)
unfolding note_method
note_method-Mapped m c =
    if-cases (Mapped c) (is_method m.method "Target.attachedToTarget") _ _
      (λ _. map_both-Mapped _ _ c)
      (λ _.
        if-cases (Mapped c) (is_method m.method "Target.detachedFromTarget") _ _
          (λ _.
            when_text-Mapped m.parsed.session_param cancel_session c
              (λ s. cancel_session-Mapped s c))
          (λ _.
            if-cases (Mapped c) (is_method m.method "Target.targetDestroyed") _ _
              (λ _.
                when_text-Mapped m.parsed.target cancel_target c (λ t. cancel_target-Mapped t c))
              (λ _.
                if-cases (Mapped c) (is_method m.method "Page.frameNavigated") _ _
                  (λ _.
                    when_text-Mapped m.session cancel_session_operations c
                      (λ s. cancel_operations-Mapped s c))
                  (λ _. same c))))

attached_to-Mapped :
    (o : Option String) (i : CallId) (m : Message) (c : Client) → Mapped c (attached_to o i m c)
unfolding attached_to
attached_to-Mapped none i m c = same c
attached_to-Mapped (some t) i m c =
    if-cases (Mapped c) (str_eq t "") _ _ (λ _. same c)
      (λ _.
        then_ c (record c { pending_attach = without_attach i c.pending_attach }) _
          (record {
            closed = refl;
            socket_open = refl;
            pending = refl;
            queue = refl;
            to_client = refl;
            to_upstream = refl;
            arrived = refl;
            running = refl;
            cancelled = λ h. h;
          })
          (map_both-Mapped m.parsed.result_session (some t) _))

note_attached-Mapped :
    (o : Option CallId) (m : Message) (c : Client) → Mapped c (note_attached o m c)
unfolding note_attached
note_attached-Mapped none m c = same c
note_attached-Mapped (some i) m c = attached_to-Mapped (attach_of i c.pending_attach) i m c

-- `updateMappings` changes the mappings and cancels inputs, and nothing else.
pub update_mappings-Mapped : (m : Message) (c : Client) → Mapped c (update_mappings m c)
unfolding update_mappings
update_mappings-Mapped m c =
    then_ c (note_attached m.id m c) _ (note_attached-Mapped m.id m c) (note_method-Mapped m _)
