-- ===== src/Socks/Relay/Alike.antt =====
-- Connections whose sockets hold the same bytes in other chunks, and what keeps them alike.
use browserlogin_client.Prelude.{
  ℕ, ◌≤◌, Bool, true, false, Option, List, ◌∷◌, ◌≡◌, refl, sym, ap, ◌∙◌, arith, ltb, if◌then◌else◌,
  Bool-cases, inl, inr,
}
use mathlib.Core.Path.{subst}
use browserlogin_client.Socks.Stream.{
  Input, Diagnostic, Result, ok, err, bytes, read_exact, first_bytes, viewed,
  read_exact-first_bytes,
}
use browserlogin_client.Socks.Conn.{
  Phase, Action, Peer, client, upstream, Conn, M, read, received, input_of, with_input, pure, throw,
  act, enter, protocol_ready, throw_if, ◌>>=◌, continue,
}

-- The two sockets hold the same bytes and stop alike.
pub record SameStream (i j : Input) : Type 0 where
  pub content : bytes i ≡ bytes j
  pub stop : i.ending ≡ j.ending

-- The two connections differ in nothing but how their bytes are cut.
pub record Alike (c d : Conn) : Type 0 where
  pub from_client : SameStream c.from_client d.from_client
  pub from_upstream : SameStream c.from_upstream d.from_upstream
  pub ready : c.ready ≡ d.ready
  pub phase : c.phase ≡ d.phase
  pub done : c.done ≡ d.done

-- Two methods answer the same on such connections, and leave such connections.
pub record Agree {A : Type 0} (m n : M A) : Type 0 where
  pub apply : (c d : Conn) → Alike c d → ((m c).0 ≡ (n d).0) × Alike (m c).1 (n d).1

-- Two reads give the same, and leave the same stream.
abbrev SameRead : Result (List ℕ × Input) → Result (List ℕ × Input) → Type 0
SameRead (ok (a, i)) (ok (b, j)) = (a ≡ b) × SameStream i j
SameRead (err d) (err e) = d ≡ e
SameRead _ _ = ⊥

SameRead-viewed : (r s : Result (List ℕ × Input)) → viewed r ≡ viewed s → SameRead r s
SameRead-viewed (ok (a, i)) (ok (b, j)) h = (cc, record { content = cc; stop = cc })
SameRead-viewed (err d) (err e) h = cc
SameRead-viewed (ok _) (err e) h = cc
SameRead-viewed (err d) (ok _) h = cc

SameRead-read_exact :
    (n : ℕ) (i j : Input) → SameStream i j → SameRead (read_exact n i) (read_exact n j)
SameRead-read_exact n i j h = elim (Bool-cases (ltb 65535 n)) [
  | inl long ↦ unfold read_exact in rw long refl
  | inr fits ↦
      let few : n ≤ 65535 = ground (arith, fits) in
      let same : first_bytes n (bytes i) i.ending ≡ first_bytes n (bytes j) j.ending =
        rw (h.content, h.stop) in
      SameRead-viewed _ _
        (read_exact-first_bytes n i few ∙ same ∙ sym (read_exact-first_bytes n j few))
]

Alike-with_input :
    (p : Peer) (i j : Input) (c d : Conn)
    → SameStream i j
    → Alike c d
    → Alike (with_input p i c) (with_input p j d)
unfolding with_input
Alike-with_input client i j c d s h = record {
  from_client = s;
  from_upstream = h.from_upstream;
  ready = h.ready;
  phase = h.phase;
  done = h.done;
}
Alike-with_input upstream i j c d s h = record {
  from_client = h.from_client;
  from_upstream = s;
  ready = h.ready;
  phase = h.phase;
  done = h.done;
}

SameStream-input_of : (p : Peer) (c d : Conn) → Alike c d → SameStream (input_of p c) (input_of p d)
unfolding input_of
SameStream-input_of client c d h = h.from_client
SameStream-input_of upstream c d h = h.from_upstream

received-Alike :
    (p : Peer) (r s : Result (List ℕ × Input)) (c d : Conn)
    → SameRead r s
    → Alike c d
    → ((received p r c).0 ≡ (received p s d).0) × Alike (received p r c).1 (received p s d).1
unfolding received
received-Alike p (ok (a, i)) (ok (b, j)) c d (e, s) h = (ap ok e, Alike-with_input p i j c d s h)
received-Alike p (err _) (err _) c d e h = (ap err e, h)
received-Alike p (ok _) (err _) c d e h = absurd e
received-Alike p (err _) (ok _) c d e h = absurd e

pub read-Agree : (p : Peer) (n : ℕ) → Agree (read p n) (read p n)
unfolding read
read-Agree p n = record {
  apply =
      λ c d h. received-Alike p _ _ c d (SameRead-read_exact n _ _ (SameStream-input_of p c d h)) h;
}

module _ {A : Type 0} where
  pub pure-Agree : (a : A) → Agree (pure a) (pure a)
  unfolding pure
  pure-Agree a = record { apply = λ c d h. (refl, h) }

  pub throw-Agree : (e : Option Diagnostic) → Agree {A = A} (throw e) (throw e)
  unfolding throw
  throw-Agree e = record { apply = λ c d h. (refl, h) }

  pub if-Agree :
      (b : Bool) {m m' n n' : M A}
      → Agree m m'
      → Agree n n'
      → Agree (if b then m else n) (if b then m' else n')
  if-Agree true h k = h
  if-Agree false h k = k

pub act-Agree : (a : Action) → Agree (act a) (act a)
unfolding act
act-Agree a = record {
  apply = λ c d h. (
    refl,
    record {
      from_client = h.from_client;
      from_upstream = h.from_upstream;
      ready = h.ready;
      phase = h.phase;
      done = ap (λ t. a ∷ t) h.done;
    },
  );
}

pub enter-Agree : (p : Phase) → Agree (enter p) (enter p)
unfolding enter
enter-Agree p = record {
  apply = λ c d h. (
    refl,
    record {
      from_client = h.from_client;
      from_upstream = h.from_upstream;
      ready = h.ready;
      phase = refl;
      done = h.done;
    },
  );
}

pub protocol_ready-Agree : Agree protocol_ready protocol_ready
unfolding protocol_ready
protocol_ready-Agree = record {
  apply = λ c d h. (
    refl,
    record {
      from_client = h.from_client;
      from_upstream = h.from_upstream;
      ready = refl;
      phase = h.phase;
      done = h.done;
    },
  );
}

pub throw_if-Agree : (b : Bool) (e : Option Diagnostic) → Agree (throw_if b e) (throw_if b e)
unfolding throw_if
throw_if-Agree b e = if-Agree b (throw-Agree e) (pure-Agree tt)

module _ {A B : Type 0} where
  continue-Agree :
      (r s : Result A) (f g : A → M B) (c d : Conn)
      → r ≡ s
      → ((a : A) → Agree (f a) (g a))
      → Alike c d
      → ((continue r f c).0 ≡ (continue s g d).0) × Alike (continue r f c).1 (continue s g d).1
  unfolding continue
  continue-Agree (ok a) (ok b) f g c d e k h =
      let p : a ≡ b = cc in
      subst (λ x. ((f a c).0 ≡ (g x d).0) × Alike (f a c).1 (g x d).1) p ((k a).apply c d h)
  continue-Agree (err _) (err _) f g c d e k h = (cc, h)
  continue-Agree (ok _) (err _) f g c d e k h = cc
  continue-Agree (err _) (ok _) f g c d e k h = cc

  pub >>=-Agree :
      {m m' : M A} {f f' : A → M B}
      → Agree m m'
      → ((a : A) → Agree (f a) (f' a))
      → Agree (m >>= f) (m' >>= f')
  unfolding ◌>>=◌
  >>=-Agree {f} {f'} h k = record {
    apply = λ c d s. let (e, t) = h.apply c d s in continue-Agree _ _ f f' _ _ e k t;
  }

pub ruleset agrees = (
  read-Agree, pure-Agree, throw-Agree, if-Agree, act-Agree, enter-Agree, protocol_ready-Agree,
  throw_if-Agree, >>=-Agree,
)
