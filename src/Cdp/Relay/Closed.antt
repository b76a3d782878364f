-- ===== src/Cdp/Relay/Closed.antt =====
-- A client that is closed.
use browserlogin_client.Prelude.{
  ℕ, Bool, true, false, not, Option, none, some, List, [], ◌∷◌, ◌≡◌, refl, sym, ap, ◌∙◌, arith,
  ◌||◌, if-cases,
}
use mathlib.Core.Path.{subst}
use browserlogin_client.Cdp.Message.{CallId, natural, below, text, Message, validate, Fallback}
use browserlogin_client.Cdp.Client.{cancel_if, send_client, close_client, expire}
use browserlogin_client.Cdp.State.{Operation, Sent, reply, passes, Client, purpose_of, has}
use browserlogin_client.Cdp.Client.Mapped.{Cancelled, Mapped, update_mappings-Mapped}
use browserlogin_client.Cdp.Relay.{
  run_next, answer, after_worker, worker_settles, at_worker, Outcome, executed, gave_up,
  call_times_out, client_message, answer_internal, deliver, upstream_checked, upstream_message,
  upstream_opens, ClientEvent, opens, connect_fails, socket_closes, floods, client_sends,
  upstream_sends, settles, times_out, expires, step, steps,
}

-- The client is closed, no call of the relay is pending, and an input under way is cancelled; nothing more
-- was sent than `to` and `up`.
record Dead (to up : List Sent) (c : Client) : Type 0 where
  closed : c.closed ≡ true
  shut : c.socket_open ≡ false
  settled : c.pending ≡ []
  stopped : Cancelled c.running
  same_client : c.to_client ≡ to
  same_upstream : c.to_upstream ≡ up

module _ (to up : List Sent) where
  send_client-Dead : (x : Sent) (c : Client) → Dead to up c → Dead to up (send_client x c)
  unfolding send_client
  send_client-Dead x c h = if-cases (Dead to up) c.socket_open _ _ (λ e. cc (e, h.shut)) (λ _. h)

  run_next-Dead : (q : List Message) (c : Client) → Dead to up c → Dead to up (run_next q c)
  unfolding run_next
  run_next-Dead [] c h = record {
    closed = h.closed;
    shut = h.shut;
    settled = h.settled;
    stopped = tt;
    same_client = h.same_client;
    same_upstream = h.same_upstream;
  }
  run_next-Dead (m ∷ ms) c h =
      if-cases (Dead to up) c.closed _ _
        (λ _. record {
          closed = h.closed;
          shut = h.shut;
          settled = h.settled;
          stopped = tt;
          same_client = h.same_client;
          same_upstream = h.same_upstream;
        })
        (λ open_. cc (open_, h.closed))

  answer-Dead :
      (o : Operation) (failed : Bool) (c : Client) → Dead to up c → Dead to up (answer o failed c)
  unfolding answer
  answer-Dead o failed c h =
      let x : Sent = reply o.id o.message.session failed in
      run_next-Dead (send_client x c).queue (send_client x c) (send_client-Dead x c h)

  after_worker-Dead :
      (w : Outcome) (f : Fallback) (draws : List ℕ) (sent : Bool) (o : Operation) (c : Client)
      → o.cancelled ≡ true
      → Dead to up c
      → Dead to up (after_worker w f draws sent o c)
  unfolding after_worker
  after_worker-Dead executed f draws sent o c e h = answer-Dead o false c h
  after_worker-Dead gave_up f draws sent o c e h =
      if-cases (Dead to up) o.cancelled _ _ (λ _. answer-Dead o false c h) (λ d. cc (d, e))

  worker_settles-Dead :
      (w : Outcome) (f : Fallback) (draws : List ℕ) (sent : Bool) (r : Option Operation)
      (c : Client)
      → Cancelled r
      → Dead to up c
      → Dead to up (worker_settles w f draws sent r c)
  unfolding worker_settles
  worker_settles-Dead w f draws sent none c e h = h
  worker_settles-Dead w f draws sent (some o) c e h =
      if-cases (Dead to up) (at_worker o.phase) _ _ (λ _. after_worker-Dead w f draws sent o c e h)
        (λ _. if-cases (Dead to up) c.closed _ _ (λ _. answer-Dead o true c h) (λ _. h))

  -- What keeps these fields keeps the client dead.
  keeps :
      (c d : Client)
      → Dead to up c
      → d.closed ≡ c.closed
      → d.socket_open ≡ c.socket_open
      → d.pending ≡ c.pending
      → Cancelled d.running
      → d.to_client ≡ c.to_client
      → d.to_upstream ≡ c.to_upstream
      → Dead to up d
  keeps c d h a b p r s t = record {
    closed = a ∙ h.closed;
    shut = b ∙ h.shut;
    settled = p ∙ h.settled;
    stopped = r;
    same_client = s ∙ h.same_client;
    same_upstream = t ∙ h.same_upstream;
  }

  updated-Dead : (c d : Client) → Dead to up c → Mapped c d → Dead to up d
  updated-Dead c d h m =
      keeps c d h m.closed m.socket_open m.pending (m.cancelled h.stopped) m.to_client m.to_upstream

  cancel_if-Cancelled : (r : Option Operation) → Cancelled (cancel_if (λ _. true) r)
  cancel_if-Cancelled none = tt
  cancel_if-Cancelled (some o) = or_true o.cancelled
    where
      or_true : (b : Bool) → b || true ≡ true
      or_true true = refl
      or_true false = refl

  close_client-Dead : (c : Client) → Dead to up c → Dead to up (close_client c)
  unfolding close_client
  close_client-Dead c h = if-cases (Dead to up) c.closed _ _ (λ _. h) (λ e. cc (e, h.closed))

  unanswered-Dead :
      (n : ℕ) (m : Message) (c : Client) → Dead to up c → Dead to up (answer_internal none n m c)
  unfolding answer_internal
  unanswered-Dead n m c h =
      if-cases (Dead to up) (has n c.internal_ids) _ _
        (λ _. keeps c _ h refl refl refl h.stopped refl refl) (λ _. send_client-Dead (passes m) c h)

  deliver-Dead :
      (o : Option CallId) (m : Message) (c : Client) → Dead to up c → Dead to up (deliver o m c)
  unfolding deliver purpose_of
  deliver-Dead none m c h = send_client-Dead _ c h
  deliver-Dead (some (natural n)) m c h = send_client-Dead _ c h
  deliver-Dead (some (text s)) m c h = send_client-Dead _ c h
  deliver-Dead (some (below n)) m c h =
      let no_call : purpose_of n c.pending ≡ none = ap (purpose_of n) h.settled ∙ refl in
      subst (λ o. Dead to up (answer_internal o n m c)) (sym no_call) (unanswered-Dead n m c h)

  upstream_checked-Dead :
      (o : Option Message) (c : Client) → Dead to up c → Dead to up (upstream_checked o c)
  unfolding upstream_checked
  upstream_checked-Dead none c h = close_client-Dead c h
  upstream_checked-Dead (some m) c h =
      deliver-Dead m.id m _ (updated-Dead c _ h (update_mappings-Mapped m c))

  step-Dead : (e : ClientEvent) (c : Client) → Dead to up c → Dead to up (step e c)
  unfolding step upstream_opens client_message upstream_message expire purpose_of call_times_out
  step-Dead (opens draws sent) c h =
      if-cases (Dead to up) (c.closed || c.upstream) _ _ (λ _. h) (λ e. cc (e, h.closed))
  step-Dead connect_fails c h = close_client-Dead c h
  step-Dead socket_closes c h = close_client-Dead c h
  step-Dead floods c h = close_client-Dead c h
  step-Dead (client_sends f sent) c h =
      if-cases (Dead to up) (not c.ready || (c.closed || not c.upstream)) _ _ (λ _. h)
        (λ e. ground (arith, e, h.closed))
  step-Dead (upstream_sends f) c h = upstream_checked-Dead (validate f) c h
  step-Dead (settles w f draws sent) c h =
      worker_settles-Dead w f draws sent c.running c h.stopped h
  step-Dead (times_out n) c h =
      let no_call : purpose_of n c.pending ≡ none = ap (purpose_of n) h.settled ∙ refl in
      subst (λ o. Dead to up (call_times_out n o c)) (sym no_call) h
  step-Dead (expires n) c h =
      if-cases (Dead to up) (has n c.tombstones) _ _
        (λ _. keeps c _ h refl refl refl h.stopped refl refl) (λ _. h)

  steps-Dead : (es : List ClientEvent) (c : Client) → Dead to up c → Dead to up (steps es c)
  unfolding steps
  steps-Dead [] c h = h
  steps-Dead (e ∷ es) c h = steps-Dead es (step e c) (step-Dead e c h)

-- Once the relay has closed a client, nothing more goes to the client or to the browser, whatever frames,
-- answers and timers still come, and however the input under way ends.
pub closed-sends_nothing :
    (es : List ClientEvent) (c : Client)
    → c.closed ≡ false
    → ((steps es (close_client c)).to_client ≡ c.to_client)
      × ((steps es (close_client c)).to_upstream ≡ c.to_upstream)
unfolding close_client
closed-sends_nothing es c open_ =
    let h = steps-Dead c.to_client c.to_upstream es (close_client c) (
      rw open_ (record {
        closed = refl;
        shut = refl;
        settled = refl;
        stopped = cancel_if-Cancelled [] [] c.running;
        same_client = refl;
        same_upstream = refl;
      })) in
    (h.same_client, h.same_upstream)
