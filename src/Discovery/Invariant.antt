-- ===== src/Discovery/Invariant.antt =====
-- The discovery cache stays consistent under every interleaving.
use browserlogin_client.Prelude.{◌≤◌, true, false, [], ◌≡◌, ◌⊎◌}
use browserlogin_client.Discovery.{Cache, is_ready}

-- Only a ready cache has tools; without an attempt in flight nobody waits and no controller is
-- active; no more callers can abort than wait; and a stopped cache has no retry timer.
pub record Consistent (c : Cache) : Type 0 where
  pub empty : (is_ready c.status ≡ true) ⊎ (c.tools ≡ [])
  pub idle : c.in_flight ≡ false → (c.waiters ≡ 0) × (c.active ≡ false)
  pub waiting : c.abortable ≤ c.waiters
  pub quiet : c.stopped ≡ true → c.retry_timer ≡ false
