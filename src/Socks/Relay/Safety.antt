-- ===== src/Socks/Relay/Safety.antt =====
-- The relay does only what the upstream's answers allow.
use browserlogin_client.Prelude.{
  ℕ, false, not, Option, none, some, List, [], ◌∷◌, ◌≡◌, refl, sym, ap, ◌∙◌, inl, inr, arith, ◌==◌,
  if-cases, take, drop, All,
}
use browserlogin_client.Socks.Stream.{Input, Result, ok, err}
use browserlogin_client.Socks.Conn.{
  upstream_method, to_client, end_client, to_upstream, Peer, upstream, Conn, read, act, enter,
  throw_if, ◌>>=◌, ◌>>◌,
}
use browserlogin_client.Socks.Login.{Relay, login}
use browserlogin_client.Socks.Relay.{
  Env, at, read_name, read_address, connect_upstream, answer_client, open_tunnel, enter_tunnel,
  forward_request, log_in, reach_upstream, take_request, refuse_methods, accept_greeting, handshake,
  send_failure, on_failure, ended_by, destroy_both, accepted, handle_client, is_pair, method_offer,
  not_allowed,
}
use browserlogin_client.Socks.Relay.Allowed.{
  upstream_bytes, HasChosen, HasGranted, HasConnected, Allowed, Past, Keeps, KeepsFrom, Leads,
  keeps, act-Keeps, from-Keeps, >>=-Keeps, >>=-KeepsFrom, read-Leads, act-Leads, enter-Leads,
  throw_if-Leads,
}

is_pair-eq : (bs : List ℕ) (x y : ℕ) → not (is_pair bs x y) ≡ false → bs ≡ x ∷ y ∷ []
is_pair-eq [] x y h = cc
is_pair-eq (a ∷ []) x y h = cc
is_pair-eq (a ∷ b ∷ []) x y h = ground arith
is_pair-eq (a ∷ b ∷ c ∷ cs) x y h = cc

module _ (r : Relay) (us : List ℕ) where
  read_address-Keeps : (p : Peer) (n : ℕ) → Keeps r us (read_address p n)
  unfolding read_address read_name
  read_address-Keeps p n = search keeps depth 12

  open_tunnel-Keeps : HasConnected us → Keeps r us open_tunnel
  unfolding open_tunnel act
  open_tunnel-Keeps h = record { apply = λ c p. (h, p) }

  answer_client-Keeps :
      (head address port : List ℕ)
      → HasGranted us
      → head ≡ take 4 (drop 4 us)
      → Keeps r us (answer_client head address port)
  unfolding answer_client enter_tunnel
  answer_client-Keeps head address port g e = >>=-Keeps r us _ _ (act-Keeps r us _ (inr g)) (λ _.
      if-cases (Keeps r us) (not (at head 1 == 0)) _ _ (λ _. act-Keeps r us _ tt)
        (λ zero_.
          let success : at (take 4 (drop 4 us)) 1 ≡ 0 = rw (← e) (ground (arith, zero_)) in
          >>=-Keeps r us _ _ (search keeps) (λ _. open_tunnel-Keeps (g, success))))

  forward_request-Keeps :
      (request address port : List ℕ)
      → HasGranted us
      → KeepsFrom r us (drop 2 (drop 2 us)) (forward_request request address port)
  unfolding forward_request
  forward_request-Keeps request address port g =
      >>=-KeepsFrom r us _ _ (enter-Leads r us _ _) (λ _ _.
        >>=-KeepsFrom r us _ _ (act-Leads r us _ _ (inr (inr g))) (λ _ _.
          >>=-KeepsFrom r us _ _ (read-Leads r us 4 _ (omega arith)) (λ head e. from-Keeps r us _ (
            search
              (
                keeps,
                read_address-Keeps,
                λ (a p : List ℕ). answer_client-Keeps head a p g (cc (e, drop_drop us)),
              )
              depth 12))))
    where
      drop_drop : (xs : List ℕ) → drop 2 (drop 2 xs) ≡ drop 4 xs
      drop_drop [] = refl
      drop_drop (a ∷ []) = refl
      drop_drop (a ∷ b ∷ xs) = refl

  log_in-Keeps :
      (env : Env) (request address port : List ℕ)
      → env.relay ≡ r
      → HasChosen us
      → KeepsFrom r us (drop 2 us) (log_in env request address port)
  unfolding log_in
  log_in-Keeps env request address port e chosen =
      >>=-KeepsFrom r us _ _ (enter-Leads r us _ _) (λ _ _.
        >>=-KeepsFrom r us _ _ (act-Leads r us _ _ (inr (inl (ap login e, chosen)))) (λ _ _.
          >>=-KeepsFrom r us _ _ (read-Leads r us 2 _ (omega arith)) (λ granted is_.
            >>=-KeepsFrom r us _ _ (throw_if-Leads r us _ _ _) (λ _ yes_.
              forward_request-Keeps request address port
                (chosen, sym is_ ∙ is_pair-eq granted 1 0 yes_)))))

  offer-Keeps :
      (env : Env) (request address port : List ℕ)
      → env.relay ≡ r
      → KeepsFrom r us us (do
        enter upstream_method
        act (to_upstream method_offer)
        chosen ← read upstream 2
        throw_if (not (is_pair chosen 5 2)) none
        log_in env request address port)
  offer-Keeps env request address port e = >>=-KeepsFrom r us _ _ (enter-Leads r us _ _) (λ _ _.
      >>=-KeepsFrom r us _ _ (act-Leads r us _ _ (inl refl)) (λ _ _.
        >>=-KeepsFrom r us _ _ (read-Leads r us 2 _ (omega arith)) (λ chosen is_.
          >>=-KeepsFrom r us _ _ (throw_if-Leads r us _ _ _) (λ _ yes_.
            log_in-Keeps env request address port e (sym is_ ∙ is_pair-eq chosen 5 2 yes_)))))

module _ (env : Env) where
  abbrev stream : List ℕ
  stream = upstream_bytes env.connection

  connect-Leads :
      (l : Input) (o : Option Input) (left : List ℕ)
      → Leads env.relay stream left (connect_upstream l o) (λ _. upstream_bytes o) (λ _. Unit {0})
  unfolding connect_upstream
  connect-Leads l none left = record { apply = λ c e p. (tt, p) }
  connect-Leads l (some i) left = record { apply = λ c e p. ((tt, p), refl, tt) }

  reach_upstream-Keeps :
      (request address port : List ℕ)
      → Keeps env.relay stream (reach_upstream env request address port)
  unfolding reach_upstream
  reach_upstream-Keeps request address port = record {
    apply = λ c p.
        (>>=-KeepsFrom env.relay stream _ _ (enter-Leads env.relay stream _ _) (λ _ _.
            >>=-KeepsFrom env.relay stream _ _ (connect-Leads env.later env.connection _)
              (λ _ _. offer-Keeps env.relay stream env request address port refl))).apply
          c refl p;
  }

  refuse_request-Keeps : Keeps env.relay stream (act (end_client not_allowed))
  refuse_request-Keeps = act-Keeps env.relay stream _ (inr (inl refl))

  take_request-Keeps : Keeps env.relay stream (take_request env)
  unfolding take_request
  take_request-Keeps =
      search (keeps, read_address-Keeps, refuse_request-Keeps, reach_upstream-Keeps) depth 24

  greet-Keeps : Keeps env.relay stream (act (to_client (5 ∷ 0 ∷ [])))
  greet-Keeps = act-Keeps env.relay stream _ (inl refl)

  accept_greeting-Keeps : Keeps env.relay stream (accept_greeting env)
  unfolding accept_greeting
  accept_greeting-Keeps = search (keeps, greet-Keeps, take_request-Keeps) depth 24

  refuse_methods-Keeps : (ms : List ℕ) → Keeps env.relay stream (refuse_methods ms)
  unfolding refuse_methods
  refuse_methods-Keeps ms =
      >>=-Keeps env.relay stream _ _ (act-Keeps env.relay stream _ tt)
        (λ _. act-Keeps env.relay stream _ (inl refl))

  handshake-Keeps : Keeps env.relay stream (handshake env)
  unfolding handshake
  handshake-Keeps = search (keeps, refuse_methods-Keeps, accept_greeting-Keeps) depth 24

  ended_by-Past :
      (x : Result (Unit {0})) (c : Conn)
      → Past env.relay stream c
      → Past env.relay stream (ended_by env x c)
  unfolding ended_by on_failure send_failure
  ended_by-Past (ok _) c p = p
  ended_by-Past (err d) c p =
      if-cases (Past env.relay stream) c.ready _ _
        (λ _.
          if-cases (Past env.relay stream) env.writable _ _ (λ _. (inr (inr refl), (tt, p)))
            (λ _. (tt, p)))
        (λ _. (tt, p))

  -- Whatever the client sends and the upstream answers: the relay's username and password are written
  -- only to an upstream that chose the login by username and password, and the client's request only to
  -- one that confirmed the login as well; what else is written to the upstream is the offer of that
  -- login. The client is sent the answer that no login is needed, one of three fixed refusals, or
  -- bytes after the upstream confirmed the login; and the tunnel is entered only if the upstream's reply
  -- reports success.
  pub handle_client-Allowed :
      (i : Input) → All (Allowed env.relay (upstream_bytes env.connection)) (handle_client env i)
  unfolding handle_client destroy_both
  handle_client-Allowed i = (tt, ended_by-Past _ _ (handshake-Keeps.apply (accepted i) tt))
