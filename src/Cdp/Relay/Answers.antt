-- ===== src/Cdp/Relay/Answers.antt =====
-- What it is for the inputs of a client to be answered in order, and what the end of an input does to it.
use browserlogin_client.Prelude.{
  ℕ, Bool, true, false, not, Option, none, some, List, [], ◌∷◌, ◌++◌, ◌≡◌, refl, sym, ap, ◌∙◌, ◌||◌,
  if-cases, is_some, All,
}
use mathlib.Core.List.{append_assoc}
use browserlogin_client.Cdp.Message.{CallId, Message, Fallback, fallback_allowed}
use browserlogin_client.Cdp.Client.{cancel_if, send_client, close_client, add_tombstone}
use browserlogin_client.Cdp.State.{
  Operation, Purpose, auto_attach, fallback_input, reply, replied, passes, Client, has,
}
use browserlogin_client.Cdp.Client.Mapped.{running_ids}
use browserlogin_client.Cdp.Relay.{
  run_next, run_input, waits_for, answer, draw, call_upstream, fall_back, after_worker,
  worker_settles, at_worker, Outcome, executed, gave_up, fallback_settles, attach_settles,
  call_settles, call_times_out,
}

abbrev pub ids_then : Option CallId → List CallId → List CallId
ids_then none is = is
ids_then (some i) is = i ∷ is

abbrev pub queued_ids : List Message → List CallId
queued_ids [] = []
queued_ids (m ∷ ms) = ids_then m.id (queued_ids ms)

abbrev pub HasId : Message → Type 0
HasId m = is_some m.id ≡ true

-- While the client is open, the inputs that came are those whose replies were sent to it, then the one that runs, then those
-- that wait; and none waits while none runs.
pub record InOrder (c : Client) : Type 0 where
  pub ordered :
      c.closed ≡ false
      → c.arrived ≡ replied c.to_client ++ (running_ids c.running ++ queued_ids c.queue)
  pub identified : All HasId c.queue
  pub busy : running_ids c.running ≡ [] → c.queue ≡ []
  pub reachable : c.closed ≡ false → c.socket_open ≡ true

pub keeps :
    (c d : Client)
    → InOrder c
    → (d.closed ≡ false → c.closed ≡ false)
    → d.arrived ≡ c.arrived
    → replied d.to_client ≡ replied c.to_client
    → running_ids d.running ≡ running_ids c.running
    → d.queue ≡ c.queue
    → d.socket_open ≡ c.socket_open
    → InOrder d
keeps c d h open_ a b r q s = record {
  ordered = λ e. rw (a, b, r, q) (h.ordered (open_ e));
  identified = rw q h.identified;
  busy = λ e. q ∙ h.busy (sym r ∙ e);
  reachable = λ e. s ∙ h.reachable (open_ e);
}

pub run_next-InOrder :
    (q : List Message) (c : Client)
    → (c.closed ≡ false → c.arrived ≡ replied c.to_client ++ queued_ids q)
    → All HasId q
    → (c.closed ≡ false → c.socket_open ≡ true)
    → InOrder (run_next q c)
unfolding run_next run_input
run_next-InOrder [] c a h s = record {
  ordered = a;
  identified = tt;
  busy = λ e. refl;
  reachable = s;
}
run_next-InOrder (m ∷ ms) c a (hm, hs) s =
    if-cases InOrder c.closed _ _
      (λ shut. record {
        ordered = λ e. cc (e, shut);
        identified = tt;
        busy = λ e. refl;
        reachable = s;
      })
      (λ _. started m.id a hm)
  where
    started :
        (o : Option CallId)
        → (c.closed ≡ false → c.arrived ≡ replied c.to_client ++ ids_then o (queued_ids ms))
        → is_some o ≡ true
        → InOrder (run_input o m ms c)
    started none a h = cc
    started (some i) a h = record { ordered = a; identified = hs; busy = λ e. cc; reachable = s }

pub send_client-InOrder :
    (m : Message) (c : Client) → InOrder c → InOrder (send_client (passes m) c)
unfolding send_client
send_client-InOrder m c h =
    if-cases InOrder c.socket_open _ _ (λ _. keeps c _ h (λ e. e) refl refl refl refl refl) (λ _. h)

-- The reply is sent, since the socket of an open client is.
pub answer-InOrder :
    (o : Operation) (failed : Bool) (c : Client)
    → running_ids c.running ≡ o.id ∷ []
    → InOrder c
    → InOrder (answer o failed c)
unfolding answer send_client
answer-InOrder o failed c r h =
    if-cases (λ (d : Client). InOrder (run_next d.queue d)) c.socket_open _ _
      (λ _.
        run_next-InOrder c.queue
          (record c { to_client = reply o.id o.message.session failed ∷ c.to_client })
          (λ e. h.ordered e ∙ rw r (sym (append_assoc (replied c.to_client) (o.id ∷ []) _)))
          h.identified h.reachable)
      (λ shut. run_next-InOrder c.queue c (λ e. cc (h.reachable e, shut)) h.identified h.reachable)

fall_back-InOrder :
    (n : Option ℕ) (o : Operation) (sent : Bool) (c : Client)
    → running_ids c.running ≡ o.id ∷ []
    → InOrder c
    → InOrder (fall_back n o sent c)
unfolding fall_back call_upstream
fall_back-InOrder none o sent c r h = h
fall_back-InOrder (some n) o sent c r h =
    let drawn = record c { internal_ids = n ∷ c.internal_ids } in
    let d : InOrder drawn = keeps c drawn h (λ e. e) refl refl refl refl refl in
    if-cases InOrder (c.closed || not c.upstream) _ _ (λ _. answer-InOrder o true drawn r d)
      (λ _.
        if-cases InOrder sent _ _ (λ _. keeps c _ h (λ e. e) refl refl (sym r) refl refl)
          (λ _. answer-InOrder o true drawn r d))

after_worker-InOrder :
    (w : Outcome) (f : Fallback) (draws : List ℕ) (sent : Bool) (o : Operation) (c : Client)
    → running_ids c.running ≡ o.id ∷ []
    → InOrder c
    → InOrder (after_worker w f draws sent o c)
unfolding after_worker
after_worker-InOrder executed f draws sent o c r h = answer-InOrder o false c r h
after_worker-InOrder gave_up f draws sent o c r h =
    if-cases InOrder o.cancelled _ _ (λ _. answer-InOrder o false c r h)
      (λ _.
        if-cases InOrder (fallback_allowed o.message.method f) _ _
          (λ _. fall_back-InOrder (draw draws c) o sent c r h) (λ _. answer-InOrder o true c r h))

pub worker_settles-InOrder :
    (w : Outcome) (f : Fallback) (draws : List ℕ) (sent : Bool) (r : Option Operation) (c : Client)
    → running_ids c.running ≡ running_ids r
    → InOrder c
    → InOrder (worker_settles w f draws sent r c)
unfolding worker_settles
worker_settles-InOrder w f draws sent none c r h = h
worker_settles-InOrder w f draws sent (some o) c r h =
    if-cases InOrder (at_worker o.phase) _ _ (λ _. after_worker-InOrder w f draws sent o c r h)
      (λ _. if-cases InOrder c.closed _ _ (λ _. answer-InOrder o true c r h) (λ _. h))

pub close_client-InOrder : (c : Client) → InOrder c → InOrder (close_client c)
unfolding close_client
close_client-InOrder c h =
    if-cases InOrder c.closed _ _ (λ _. h)
      (λ _. record {
        ordered = λ e. cc;
        identified = h.identified;
        busy = λ e. h.busy (sym (cancel_all c.running) ∙ e);
        reachable = λ e. cc;
      })
  where
    cancel_all : (r : Option Operation) → running_ids (cancel_if (λ _. true) r) ≡ running_ids r
    cancel_all none = refl
    cancel_all (some o) = refl

pub call_settles-InOrder :
    (p : Purpose) (failed : Bool) (n : ℕ) (c : Client)
    → InOrder c
    → InOrder (call_settles p failed n c)
unfolding call_settles attach_settles fallback_settles
call_settles-InOrder auto_attach failed n c h =
    if-cases InOrder failed _ _ (λ _. close_client-InOrder c h)
      (λ _. keeps c _ h (λ e. e) refl refl refl refl refl)
call_settles-InOrder fallback_input failed n c h = settled c.running refl
  where
    settled : (r : Option Operation) → c.running ≡ r → InOrder (fallback_settles failed n r c)
    settled none e = h
    settled (some o) e =
        if-cases InOrder (waits_for n o.phase) _ _
          (λ _. answer-InOrder o failed c (ap running_ids e) h) (λ _. h)

pub call_times_out-InOrder :
    (n : ℕ) (p : Option Purpose) (c : Client) → InOrder c → InOrder (call_times_out n p c)
unfolding call_times_out add_tombstone
call_times_out-InOrder n none c h = h
call_times_out-InOrder n (some p) c h =
    if-cases (λ d. InOrder (call_settles p true n d)) (has n c.internal_ids) _ _
      (λ _. call_settles-InOrder p true n _ (keeps c _ h (λ e. e) refl refl refl refl refl))
      (λ _. call_settles-InOrder p true n _ (keeps c _ h (λ e. e) refl refl refl refl refl))
