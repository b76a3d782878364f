-- ===== src/Cdp/Relay/Order.antt =====
-- The inputs of a client and the replies to them, event by event.
use browserlogin_client.Prelude.{
  ℕ, String, Bool, false, not, Option, none, some, List, [], ◌∷◌, ◌++◌, ◌≡◌, refl, sym, ap, ◌∙◌,
  ◌||◌, if◌then◌else◌, if-cases, is_some, All, All-append,
}
use mathlib.Core.List.{append_assoc}
use browserlogin_client.Cdp.Message.{
  CallId, natural, below, text, Message, validate, is_input, is_method,
}
use browserlogin_client.Cdp.Client.{expire}
use browserlogin_client.Cdp.State.{Operation, Purpose, Client, purpose_of, has, replied}
use browserlogin_client.Cdp.Client.Mapped.{running_ids, update_mappings-Mapped}
use browserlogin_client.Cdp.Relay.{
  run_next, take_with, draw, call_upstream, enqueue_input, note_attach, attach_to, pass_on,
  take_message, client_message, answer_internal, deliver, upstream_checked, upstream_message,
  attach_with, upstream_opens, failed_answer, ClientEvent, opens, connect_fails, socket_closes,
  floods, client_sends, upstream_sends, settles, times_out, expires, step, steps,
}
use browserlogin_client.Cdp.Relay.Answers.{
  ids_then, queued_ids, HasId, InOrder, keeps, run_next-InOrder, send_client-InOrder,
  worker_settles-InOrder, close_client-InOrder, call_settles-InOrder, call_times_out-InOrder,
}

queued_ids-append :
    (q : List Message) (m : Message) (i : CallId)
    → m.id ≡ some i
    → queued_ids (q ++ (m ∷ [])) ≡ queued_ids q ++ (i ∷ [])
queued_ids-append [] m i e = ap (λ o. ids_then o []) e
queued_ids-append (x ∷ q) m i e = ap (ids_then x.id) (queued_ids-append q m i e) ∙ front x.id
  where
    front :
        (o : Option CallId)
        → ids_then o (queued_ids q ++ (i ∷ [])) ≡ ids_then o (queued_ids q) ++ (i ∷ [])
    front none = refl
    front (some j) = refl

enqueue_input-InOrder :
    (m : Message) (i : CallId) (c : Client)
    → m.id ≡ some i
    → InOrder c
    → InOrder (enqueue_input m i c)
unfolding enqueue_input
enqueue_input-InOrder m i c e h = joined c.running refl
  where
    came : Client
    came = record c { arrived = c.arrived ++ (i ∷ []); queue = c.queue ++ (m ∷ []) }

    known : All HasId (c.queue ++ (m ∷ []))
    known = All-append HasId c.queue (m ∷ []) h.identified (ap is_some e, tt)

    lengthened :
        c.closed ≡ false
        → came.arrived ≡ replied c.to_client ++ (running_ids c.running ++ queued_ids came.queue)
    lengthened open_ =
        ap (λ t. t ++ (i ∷ [])) (h.ordered open_)
        ∙ rw (queued_ids-append c.queue m i e) (simp append_assoc)

    joined :
        (r : Option Operation)
        → c.running ≡ r
        → InOrder (if is_some r then came else run_next came.queue came)
    joined none n =
        run_next-InOrder came.queue came
          (λ open_.
            lengthened open_
            ∙ ap (λ t. replied c.to_client ++ (t ++ queued_ids came.queue)) (ap running_ids n))
          known h.reachable
    joined (some o) s = record {
      ordered = lengthened;
      identified = known;
      busy = λ x. cc (x, s);
      reachable = h.reachable;
    }

note_attach-InOrder : (m : Message) (c : Client) → InOrder c → InOrder (note_attach m c)
note_attach-InOrder m c h =
    if-cases InOrder (is_method m.method "Target.attachToTarget") _ _
      (λ _. noted m.id m.parsed.target) (λ _. h)
  where
    noted : (o : Option CallId) (t : Option String) → InOrder (attach_to o t c)
    noted none t = h
    noted (some i) none = h
    noted (some i) (some t) = keeps c _ h (λ e. e) refl refl refl refl refl

pass_on-InOrder : (m : Message) (sent : Bool) (c : Client) → InOrder c → InOrder (pass_on m sent c)
unfolding pass_on
pass_on-InOrder m sent c h =
    let n = note_attach-InOrder m c h in
    let noted = note_attach m c in
    if-cases InOrder (not noted.upstream_open) _ _ (λ _. n)
      (λ _.
        if-cases InOrder sent _ _ (λ _. keeps noted _ n (λ e. e) refl refl refl refl refl)
          (λ _. close_client-InOrder noted n))

take_message-InOrder :
    (o : Option Message) (sent : Bool) (c : Client) → InOrder c → InOrder (take_message o sent c)
unfolding take_message take_with
take_message-InOrder none sent c h = close_client-InOrder c h
take_message-InOrder (some m) sent c h = taken m.id refl
  where
    taken : (o : Option CallId) → m.id ≡ o → InOrder (take_with o m sent c)
    taken none e = pass_on-InOrder m sent c h
    taken (some i) e =
        if-cases InOrder (is_input m.method) _ _ (λ _. enqueue_input-InOrder m i c e h)
          (λ _. pass_on-InOrder m sent c h)

answer_internal-InOrder :
    (o : Option Purpose) (n : ℕ) (m : Message) (c : Client)
    → InOrder c
    → InOrder (answer_internal o n m c)
unfolding answer_internal
answer_internal-InOrder none n m c h =
    if-cases InOrder (has n c.internal_ids) _ _ (λ _. keeps c _ h (λ e. e) refl refl refl refl refl)
      (λ _. send_client-InOrder m c h)
answer_internal-InOrder (some p) n m c h =
    call_settles-InOrder p (failed_answer p m) n _ (keeps c _ h (λ e. e) refl refl refl refl refl)

deliver-InOrder :
    (o : Option CallId) (m : Message) (c : Client) → InOrder c → InOrder (deliver o m c)
unfolding deliver
deliver-InOrder none m c h = send_client-InOrder _ c h
deliver-InOrder (some (natural n)) m c h = send_client-InOrder _ c h
deliver-InOrder (some (text s)) m c h = send_client-InOrder _ c h
deliver-InOrder (some (below n)) m c h = answer_internal-InOrder (purpose_of n c.pending) n m c h

upstream_checked-InOrder :
    (o : Option Message) (c : Client) → InOrder c → InOrder (upstream_checked o c)
unfolding upstream_checked
upstream_checked-InOrder none c h = close_client-InOrder c h
upstream_checked-InOrder (some m) c h =
    let u = update_mappings-Mapped m c in
    deliver-InOrder m.id m _ (
      keeps c _ h (λ e. sym u.closed ∙ e) u.arrived (ap replied u.to_client) u.running u.queue
        u.socket_open)

attach_with-InOrder :
    (o : Option ℕ) (sent : Bool) (c : Client) → InOrder c → InOrder (attach_with o sent c)
unfolding attach_with call_upstream
attach_with-InOrder none sent c h = h
attach_with-InOrder (some n) sent c h =
    if-cases InOrder sent _ _ (λ _. keeps c _ h (λ e. e) refl refl refl refl refl)
      (λ _. close_client-InOrder _ (keeps c _ h (λ e. e) refl refl refl refl refl))

step-InOrder : (e : ClientEvent) (c : Client) → InOrder c → InOrder (step e c)
unfolding step upstream_opens client_message upstream_message expire
step-InOrder (opens draws sent) c h =
    if-cases InOrder (c.closed || c.upstream) _ _ (λ _. h)
      (λ _. attach_with-InOrder (draw draws c) sent c h)
step-InOrder connect_fails c h = close_client-InOrder c h
step-InOrder socket_closes c h = close_client-InOrder c h
step-InOrder floods c h = close_client-InOrder c h
step-InOrder (client_sends f sent) c h =
    if-cases InOrder (not c.ready || (c.closed || not c.upstream)) _ _ (λ _. h)
      (λ _. take_message-InOrder (validate f) sent c h)
step-InOrder (upstream_sends f) c h = upstream_checked-InOrder (validate f) c h
step-InOrder (settles w f draws sent) c h = worker_settles-InOrder w f draws sent c.running c refl h
step-InOrder (times_out n) c h = call_times_out-InOrder n (purpose_of n c.pending) c h
step-InOrder (expires n) c h =
    if-cases InOrder (has n c.tombstones) _ _ (λ _. keeps c _ h (λ e. e) refl refl refl refl refl)
      (λ _. h)

-- Under every interleaving of frames, workers, fallbacks, timeouts and cancellations, as long as the client
-- is open: the inputs that it sent are the ones whose replies were sent to it, in the order of the
-- replies, then the one that runs, then those that wait, in the order in which they came. So each is
-- replied to at most once, none is lost, and none waits while none runs.
pub steps-InOrder : (es : List ClientEvent) (c : Client) → InOrder c → InOrder (steps es c)
unfolding steps
steps-InOrder [] c h = h
steps-InOrder (e ∷ es) c h = steps-InOrder es (step e c) (step-InOrder e c h)
