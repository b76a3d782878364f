-- ===== src/Coordinator/Tests/Runner.antt =====
-- The theorems on stopping and killing runners, at the sample world.
use browserlogin_client.Prelude.{some, []}
use browserlogin_client.Coordinator.Cleanup.{stop_runner}
use browserlogin_client.Coordinator.Cleanup.Verified.{Verified, stop_runner-Verified}
use browserlogin_client.Coordinator.Start.{kill_previous}
use browserlogin_client.Coordinator.Start.Verified.{Asserts, kill_previous-Asserts}
use browserlogin_client.Coordinator.Tests.Sample.{env, opts, filed, running_state}

stop_runner-Verified_example :
    Verified env (stop_runner env opts running_state (filed running_state)).1.trace
stop_runner-Verified_example = stop_runner-Verified env opts running_state (filed running_state) tt

kill_previous-Asserts_example :
    Asserts env [] (kill_previous env opts running_state (some 7) (filed running_state)).1.trace
kill_previous-Asserts_example =
    kill_previous-Asserts env opts running_state (some 7) (filed running_state)
