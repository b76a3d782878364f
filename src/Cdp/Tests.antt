-- ===== src/Cdp/Tests.antt =====
-- The relay of the browser's protocol at small runs.
use browserlogin_client.Prelude.{String, true, false, none, some, List, [], ◌∷◌, ◌≡◌, refl}
use browserlogin_client.Cdp.Message.{
  CallId, natural, below, Field, missing, value, Frame, utf8, validate, accepted, is_id, is_input,
  fallback_allowed, Fallback,
}
use browserlogin_client.Cdp.Client.{
  close_client, send_client, update_mappings, note_attached, note_method, attach_of,
}
use browserlogin_client.Cdp.State.{new_client, reply, purpose_of, without_call, without, target_of}
use browserlogin_client.Cdp.Relay.{
  opens, client_sends, upstream_sends, settles, ClientEvent, steps, step, executed, gave_up,
  upstream_opens, attach_with, draw, call_upstream, upstream_message, upstream_checked, deliver,
  answer_internal, call_settles, attach_settles, client_message, take_message, take_with,
  enqueue_input, run_next, run_input, worker_settles, after_worker, answer, fall_back,
  fallback_settles,
}
use browserlogin_client.Cdp.Relay.Answers.{InOrder}
use browserlogin_client.Cdp.Relay.Order.{steps-InOrder}
use browserlogin_client.Cdp.Relay.Closed.{closed-sends_nothing}

-- An object with an id and perhaps a method, whose result is an object.
abbrev object : CallId → Field String → Frame
object i m = utf8 100 (
    some (record {
      id = value i;
      method = m;
      has_params = missing;
      session = missing;
      target = none;
      session_param = none;
      info_target = none;
      result_session = none;
      error = false;
      result = true;
      content = 0;
    }))

abbrev keyboard_only : Fallback
keyboard_only = record { keyboard = true; mouse = false; touch = false }

-- Two inputs: the first fails at the worker and is sent on under the id -1 - 9, whose answer comes while
-- the second waits.
abbrev typing : List ClientEvent
typing =
    opens (7 ∷ []) true
    ∷ upstream_sends (object (below 7) missing)
    ∷ client_sends (object (natural 1) (value "Input.dispatchKeyEvent")) true
    ∷ client_sends (object (natural 2) (value "Input.dispatchKeyEvent")) true
    ∷ settles gave_up keyboard_only (9 ∷ []) true
    ∷ upstream_sends (object (below 9) missing)
    ∷ settles executed keyboard_only [] true
    ∷ []

typing_test :
    (steps typing new_client).to_client
    ≡ reply (natural 2) none false ∷ reply (natural 1) none false ∷ []
unfolding steps step upstream_opens attach_with draw call_upstream upstream_message upstream_checked
    deliver answer_internal call_settles attach_settles client_message take_message take_with
    enqueue_input run_next run_input worker_settles after_worker answer fall_back fallback_settles
    validate accepted is_id is_input fallback_allowed send_client purpose_of without_call without
    update_mappings note_attached note_method attach_of target_of
typing_test = refl

new_client-InOrder : InOrder new_client
new_client-InOrder = record {
  ordered = λ e. refl;
  identified = tt;
  busy = λ e. refl;
  reachable = λ e. refl;
}

steps-InOrder_example : InOrder (steps typing new_client)
steps-InOrder_example = steps-InOrder typing new_client new_client-InOrder

closed-sends_nothing_example :
    ((steps typing (close_client new_client)).to_client ≡ [])
    × ((steps typing (close_client new_client)).to_upstream ≡ [])
closed-sends_nothing_example = closed-sends_nothing typing new_client refl
