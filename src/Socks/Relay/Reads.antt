-- ===== src/Socks/Relay/Reads.antt =====
-- Reads of a socket that has what is read, and the part of `handleClient` behind the login on such sockets.
use browserlogin_client.Prelude.{
  ℕ, ◌≤◌, ◌<◌, Bool, false, Option, some, List, [], ◌∷◌, ◌++◌, ◌≡◌, refl, ap, ◌∙◌, arith, ◌==◌,
  length,
}
use browserlogin_client.Socks.Stream.{
  Ending, Input, Diagnostic, Result, ok, bytes, one, read_exact-one, bytes-one,
}
use browserlogin_client.Socks.Conn.{
  tunnel, to_client, to_upstream, connects, tunnels, Peer, client, upstream, Conn, M, read,
  received, input_of, with_input, pure, act, enter, throw_if, ◌>>=◌, continue,
}
use browserlogin_client.Socks.Relay.{
  Env, read_name, read_address, connect_upstream, answer_client, open_tunnel, enter_tunnel,
  forward_request,
}

-- The address of a SOCKS5 message by its type: IPv4, IPv6, or a name behind its length.
pub data IsAddress : ℕ → List ℕ → Type 0 where
  v4 : (a : ℕ) (bs : List ℕ) → a ≡ 1 → length bs ≡ 4 → IsAddress a bs
  v6 : (a : ℕ) (bs : List ℕ) → a ≡ 4 → length bs ≡ 16 → IsAddress a bs
  name : (a n : ℕ) (bs : List ℕ) → a ≡ 3 → 0 < n → n ≤ 255 → length bs ≡ n → IsAddress a (n ∷ bs)

pub read-one :
    (p : Peer) (n : ℕ) (bs rest : List ℕ) (e : Ending) (c : Conn)
    → length bs ≡ n
    → n ≤ 65535
    → input_of p c ≡ one (bs ++ rest) e
    → read p n c ≡ (ok bs, with_input p (one rest e) c)
unfolding read received
read-one p n bs rest e c len few i = rw (i, read_exact-one n bs rest e len few)

input_of-with_input : (p : Peer) (i : Input) (c : Conn) → input_of p (with_input p i c) ≡ i
unfolding input_of with_input
input_of-with_input client i c = refl
input_of-with_input upstream i c = refl

with_input-with_input :
    (p : Peer) (i j : Input) (c : Conn) → with_input p i (with_input p j c) ≡ with_input p i c
unfolding with_input
with_input-with_input client i j c = refl
with_input-with_input upstream i j c = refl

pub read_address-one :
    (p : Peer) (a : ℕ) (bs rest : List ℕ) (e : Ending) (c : Conn)
    → IsAddress a bs
    → input_of p c ≡ one (bs ++ rest) e
    → read_address p a c ≡ (ok bs, with_input p (one rest e) c)
unfolding read_address read_name ◌>>=◌ continue pure throw_if
read_address-one p a bs rest e c (v4 _ _ t len) i =
    rw t (read-one p 4 bs rest e c len (omega arith) i)
read_address-one p a bs rest e c (v6 _ _ t len) i =
    rw t (read-one p 16 bs rest e c len (omega arith) i)
read_address-one p a bs rest e c (name _ n xs t pos few len) i =
    let some_ : (n == 0) ≡ false = ground arith in
    let first = read-one p 1 (n ∷ []) (xs ++ rest) e c refl (omega arith) i in
    let second =
      read-one p n xs rest e (with_input p (one (xs ++ rest) e) c) len (omega arith)
        (input_of-with_input p _ c) in
    rw t (rw first (rw some_ (rw second (rw (with_input-with_input p (one rest e) _ c) refl))))

-- A method whose first part answers goes on with its answer.
pub then_ :
    {A B : Type 0} (m : M A) (f : A → M B) {c d : Conn} {a : A} {x : Result B × Conn}
    → m c ≡ (ok a, d)
    → f a d ≡ x
    → (m >>= f) c ≡ x
unfolding ◌>>=◌ continue
then_ m f h k = rw h k

pub passes :
    {B : Type 0} (b : Bool) (e : Option Diagnostic) (f : Unit {0} → M B) {c : Conn}
    {x : Result B × Conn}
    → b ≡ false
    → f tt c ≡ x
    → (throw_if b e >>= f) c ≡ x
unfolding ◌>>=◌ continue throw_if pure
passes b e f h k = rw h k

module _ (env : Env) (request address port : List ℕ) where
  pub forward_request-one :
      (rtype q1 q2 : ℕ) (raddress umore more : List ℕ) (ce ue : Ending) (c : Conn)
      → IsAddress rtype raddress
      → c.from_client ≡ one more ce
      → c.from_upstream ≡ one (5 ∷ 0 ∷ 0 ∷ rtype ∷ (raddress ++ (q1 ∷ q2 ∷ umore))) ue
      → forward_request request address port c ≡ (
        ok tt,
        record c {
          phase = tunnel;
          from_upstream = one umore ue;
          done =
              tunnels more umore
              ∷ to_client (5 ∷ 0 ∷ 0 ∷ rtype ∷ (raddress ++ (q1 ∷ q2 ∷ [])))
              ∷ to_upstream (request ++ (address ++ port))
              ∷ c.done;
        },
      )
  unfolding forward_request answer_client enter_tunnel open_tunnel enter act input_of with_input
  forward_request-one rtype q1 q2 raddress umore more ce ue c addr cl up = then_ _ _ refl (
      then_ _ _ refl (
        then_ _ _ (read-one upstream 4 (5 ∷ 0 ∷ 0 ∷ rtype ∷ []) _ ue _ refl (omega arith) up) (
          passes _ _ _ refl (
            then_ _ _ (read_address-one upstream rtype raddress _ ue _ addr refl) (
              then_ _ _ (read-one upstream 2 (q1 ∷ q2 ∷ []) umore ue _ refl (omega arith) refl) (
                then_ _ _ refl
                  (then_ _ _ refl (rw (ap bytes cl ∙ bytes-one more ce, bytes-one umore ue)))))))))

pub connect_upstream-some :
    (l : Input) (o : Option Input) (i : Input) (c : Conn)
    → o ≡ some i
    → connect_upstream l o c
      ≡ (ok tt, record c { done = connects ∷ c.done; from_upstream = i; from_client = l })
unfolding connect_upstream
connect_upstream-some l o i c e = rw e
