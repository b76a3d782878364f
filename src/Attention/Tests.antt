-- ===== src/Attention/Tests.antt =====
-- Requests for attention at small runs.
use browserlogin_client.Prelude.{true, false, some, List, [], ◌∷◌, ◌≡◌, refl}
use browserlogin_client.Json.{Json, obj, str, field, end}
use browserlogin_client.Attention.Channels.{
  parse_request, partial, submitted, failed, both, was_submitted, was_failed, dispatched,
  requested_channels, settled_channel, result_for_channels,
}
use browserlogin_client.Attention.Service.{
  new_service, requests, reads, settles, ServiceEvent, react, react_all, begin_request,
  await_settings, settings_read, resume, with_settings, dispatch_at, adapters_settle, finish,
  shutdown,
}
use browserlogin_client.Attention.Service.Spacing.{Calm, react_all-Calm}
use browserlogin_client.Attention.Service.Closed.{shutdown-dispatches_nothing}

abbrev call : Json
call = obj (field "message" (str "log in") end)

call_test : parse_request call ≡ some (record { title = "BrowserLogin"; message = "log in" })
unfolding parse_request
call_test = refl

partial_test :
    dispatched both was_failed was_submitted
    ≡ record { code = partial; audio = failed; notification = submitted }
unfolding dispatched requested_channels settled_channel result_for_channels
partial_test = refl

-- The second request comes too soon after the first, and the third late enough.
abbrev three_calls : List ServiceEvent
three_calls =
    requests 0 call
    ∷ requests 1 call
    ∷ reads 0 (some (record { enabled = true; delivery = both })) false 10000
    ∷ reads 1 (some (record { enabled = true; delivery = both })) false 14999
    ∷ requests 2 call
    ∷ reads 2 (some (record { enabled = true; delivery = both })) false 15000
    ∷ settles 0 was_submitted was_submitted
    ∷ []

three_calls_test : (react_all three_calls new_service).dispatches ≡ 15000 ∷ 10000 ∷ []
unfolding react_all react begin_request await_settings parse_request settings_read resume
    with_settings dispatch_at adapters_settle finish
three_calls_test = refl

new_service-Calm : Calm new_service
new_service-Calm = record { spaced = tt; remembered = refl; aborted = λ e. tt }

react_all-Calm_example : Calm (react_all three_calls new_service)
react_all-Calm_example = react_all-Calm three_calls new_service new_service-Calm

shutdown-dispatches_nothing_example : (react_all three_calls (shutdown new_service)).dispatches ≡ []
shutdown-dispatches_nothing_example = shutdown-dispatches_nothing three_calls new_service
