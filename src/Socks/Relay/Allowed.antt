-- ===== src/Socks/Relay/Allowed.antt =====
-- What the relay may do with the upstream's answers at hand, and rules for methods that keep to it.
use browserlogin_client.Prelude.{
  ℕ, ◌≤◌, Bool, true, false, Option, none, some, List, [], ◌∷◌, ◌≡◌, refl, ap, ◌∙◌, ◌⊎◌, inl, inr,
  if◌then◌else◌, if-cases, Bool-cases, ltb, length, take, drop, All,
}
use browserlogin_client.Socks.Stream.{
  Input, Diagnostic, Result, ok, err, bytes, viewed, first_bytes, read_exact-first_bytes,
}
use browserlogin_client.Socks.Conn.{
  Phase, Action, to_client, end_client, to_upstream, tunnels, Peer, client, upstream, Conn, M,
  input_of, with_input, received, read, pure, throw, act, enter, protocol_ready, throw_if, continue,
  ◌>>=◌,
}
use browserlogin_client.Socks.Login.{Relay, login}
use browserlogin_client.Socks.Relay.{at, method_offer, not_allowed, socks_failure}

-- All that the upstream sends.
abbrev pub upstream_bytes : Option Input → List ℕ
upstream_bytes none = []
upstream_bytes (some i) = bytes i

-- The upstream chose the login by username and password.
abbrev pub HasChosen : List ℕ → Type 0
HasChosen us = take 2 us ≡ 5 ∷ 2 ∷ []

-- It chose that login, and confirmed it.
abbrev pub HasGranted : List ℕ → Type 0
HasGranted us = HasChosen us × (take 2 (drop 2 us) ≡ 1 ∷ 0 ∷ [])

-- Its reply to the request, which follows, reports success.
abbrev pub HasConnected : List ℕ → Type 0
HasConnected us = HasGranted us × (at (take 4 (drop 4 us)) 1 ≡ 0)

-- The username and password go out only to an upstream that chose this login, and the client's request
-- only to one that confirmed it. The client is told that no login is needed, and otherwise what an
-- upstream sent that confirmed the login, or one of three fixed refusals. The tunnel is for an upstream
-- that reported success.
abbrev pub Allowed : Relay → List ℕ → Action → Type 0
Allowed r us (to_client bs) = (bs ≡ 5 ∷ 0 ∷ []) ⊎ HasGranted us
Allowed r us (end_client bs) = (bs ≡ 5 ∷ 255 ∷ []) ⊎ (bs ≡ not_allowed) ⊎ (bs ≡ socks_failure)
Allowed r us (to_upstream bs) =
    (bs ≡ method_offer) ⊎ ((bs ≡ login r) × HasChosen us) ⊎ HasGranted us
Allowed r us (tunnels _ _) = HasConnected us
Allowed r us _ = Unit

module _ (r : Relay) (us : List ℕ) where
  abbrev pub Past : Conn → Type 0
  Past c = All (Allowed r us) c.done

  -- The method does only what is allowed.
  pub record Keeps {A : Type 0} (m : M A) : Type 0 where
    pub apply : (c : Conn) → Past c → Past (m c).1

  -- It does so when the upstream still has `left` to read.
  pub record KeepsFrom {A : Type 0} (left : List ℕ) (m : M A) : Type 0 where
    pub apply : (c : Conn) → bytes c.from_upstream ≡ left → Past c → Past (m c).1

  -- What it answers, if it answers, and what is left of the upstream's bytes then.
  abbrev pub Ends : {A : Type 0} → (A → List ℕ) → (A → Type 0) → Result A → Conn → Type 0
  Ends rest Fact (ok a) c = Past c × (bytes c.from_upstream ≡ rest a) × Fact a
  Ends rest Fact (err d) c = Past c

  pub record Leads {A : Type 0} (left : List ℕ) (m : M A) (rest : A → List ℕ) (Fact : A → Type 0)
      : Type 0 where
    pub apply : (c : Conn) → bytes c.from_upstream ≡ left → Past c → Ends rest Fact (m c).0 (m c).1

  received-Keeps :
      (p : Peer) (x : Result (List ℕ × Input)) (c : Conn) → Past c → Past (received p x c).1
  unfolding received with_input
  received-Keeps client (ok _) c h = h
  received-Keeps upstream (ok _) c h = h
  received-Keeps p (err _) c h = h

  pub read-Keeps : (p : Peer) (n : ℕ) → Keeps (read p n)
  unfolding read
  read-Keeps p n = record { apply = λ c h. received-Keeps p _ c h }

  pub act-Keeps : (a : Action) → Allowed r us a → Keeps (act a)
  unfolding act
  act-Keeps a ok_ = record { apply = λ c h. (ok_, h) }

  pub enter-Keeps : (p : Phase) → Keeps (enter p)
  unfolding enter
  enter-Keeps p = record { apply = λ c h. h }

  pub protocol_ready-Keeps : Keeps protocol_ready
  unfolding protocol_ready
  protocol_ready-Keeps = record { apply = λ c h. h }

  module _ {A : Type 0} where
    pub pure-Keeps : (a : A) → Keeps (pure a)
    unfolding pure
    pure-Keeps a = record { apply = λ c h. h }

    pub throw-Keeps : (e : Option Diagnostic) → Keeps {A = A} (throw e)
    unfolding throw
    throw-Keeps e = record { apply = λ c h. h }

    pub if-Keeps : (b : Bool) {m n : M A} → Keeps m → Keeps n → Keeps (if b then m else n)
    if-Keeps b {m} {n} h k = if-cases Keeps b m n (λ _. h) (λ _. k)

    pub from-Keeps : (left : List ℕ) {m : M A} → Keeps m → KeepsFrom left m
    from-Keeps left h = record { apply = λ c e p. h.apply c p }

  pub throw_if-Keeps : (b : Bool) (e : Option Diagnostic) → Keeps (throw_if b e)
  unfolding throw_if
  throw_if-Keeps b e = if-Keeps b (throw-Keeps e) (pure-Keeps tt)

  module _ {A B : Type 0} where
    continue-Keeps :
        (x : Result A) (f : A → M B) (c : Conn)
        → ((a : A) → Keeps (f a))
        → Past c
        → Past (continue x f c).1
    unfolding continue
    continue-Keeps (ok a) f c k h = (k a).apply c h
    continue-Keeps (err _) f c k h = h

    pub >>=-Keeps : (m : M A) (f : A → M B) → Keeps m → ((a : A) → Keeps (f a)) → Keeps (m >>= f)
    unfolding ◌>>=◌
    >>=-Keeps m f h k = record { apply = λ c p. continue-Keeps _ f _ k (h.apply c p) }

    continue-KeepsFrom :
        (rest : A → List ℕ) (Fact : A → Type 0) (x : Result A) (f : A → M B) (c : Conn)
        → ((a : A) → Fact a → KeepsFrom (rest a) (f a))
        → Ends rest Fact x c
        → Past (continue x f c).1
    unfolding continue
    continue-KeepsFrom rest Fact (ok a) f c k (p, e, fact) = (k a fact).apply c e p
    continue-KeepsFrom rest Fact (err _) f c k p = p

    pub >>=-KeepsFrom :
        {left : List ℕ} (rest : A → List ℕ) (Fact : A → Type 0) {m : M A} {f : A → M B}
        → Leads left m rest Fact
        → ((a : A) → Fact a → KeepsFrom (rest a) (f a))
        → KeepsFrom left (m >>= f)
    unfolding ◌>>=◌
    >>=-KeepsFrom rest Fact {m} {f} h k = record {
      apply = λ c e p. continue-KeepsFrom rest Fact (m c).0 f (m c).1 k (h.apply c e p);
    }

  -- A read of the upstream takes the first of the bytes that are left.
  received-Leads :
      (n : ℕ) (left : List ℕ) (x : Result (List ℕ × Input)) (c : Conn)
      → viewed x ≡ first_bytes n left c.from_upstream.ending
      → Past c
      → Ends
          (λ _. drop n left)
          (λ bs. bs ≡ take n left)
          (received upstream x c).0
          (received upstream x c).1
  unfolding received with_input
  received-Leads n left (ok (bs, i)) c e p = elim (Bool-cases (ltb (length left) n)) [
    | inl short ↦ cc (rw short at e)
    | inr long ↦ let e' = rw long at e in (p, cc (e'), cc (e'))
  ]
  received-Leads n left (err d) c e p = p

  pub read-Leads :
      (n : ℕ) (left : List ℕ)
      → n ≤ 65535
      → Leads left (read upstream n) (λ _. drop n left) (λ bs. bs ≡ take n left)
  unfolding read input_of
  read-Leads n left few = record {
    apply = λ c e p.
        received-Leads n left _ c
          (read_exact-first_bytes n c.from_upstream few
            ∙ ap (λ t. first_bytes n t c.from_upstream.ending) e)
          p;
  }

  pub act-Leads :
      (a : Action) (left : List ℕ) → Allowed r us a → Leads left (act a) (λ _. left) (λ _. Unit {0})
  unfolding act
  act-Leads a left ok_ = record { apply = λ c e p. ((ok_, p), e, tt) }

  pub enter-Leads : (p : Phase) (left : List ℕ) → Leads left (enter p) (λ _. left) (λ _. Unit {0})
  unfolding enter
  enter-Leads p left = record { apply = λ c e h. (h, e, tt) }

  throw_if-Ends :
      (b : Bool) (d : Option Diagnostic) (left : List ℕ) (c : Conn)
      → bytes c.from_upstream ≡ left
      → Past c
      → Ends (λ _. left) (λ _. b ≡ false) (throw_if b d c).0 (throw_if b d c).1
  unfolding throw_if throw pure
  throw_if-Ends true d left c e p = p
  throw_if-Ends false d left c e p = (p, e, refl)

  pub throw_if-Leads :
      (b : Bool) (d : Option Diagnostic) (left : List ℕ)
      → Leads left (throw_if b d) (λ _. left) (λ _. b ≡ false)
  throw_if-Leads b d left = record { apply = λ c e p. throw_if-Ends b d left c e p }

pub ruleset keeps = (
  read-Keeps, pure-Keeps, throw-Keeps, throw_if-Keeps, if-Keeps, enter-Keeps, protocol_ready-Keeps,
  >>=-Keeps,
)
