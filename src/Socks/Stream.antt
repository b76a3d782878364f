-- ===== src/Socks/Stream.antt =====
-- src/core/proxy/socks-relay.ts: `readExact`, and the byte stream that it reads. A byte is a number
-- below 256. What a socket delivers is a list of chunks and how the delivery ends. A read that follows
-- another on the same socket, with no other await between them, finds the rest of the list: its
-- listener is there before the socket's next event. What a wait between two reads loses is written out
-- where the source waits.
use browserlogin_client.Prelude.{
  ℕ, zero, suc, ◌≤◌, true, false, Option, none, some, List, [], ◌∷◌, ◌++◌, ◌≡◌, refl, ap, ◌∙◌,
  arith, ltb, ◌==◌, if◌then◌else◌, length, length-append, take, drop, Bool-cases, inl, inr,
}
use mathlib.Core.List.{append-nil, append_assoc}

-- How a socket's delivery stops: the peer ended it, it failed, or nothing comes before the deadline.
pub data Ending : Type 0 where
  ended broken silent : Ending

pub record Input : Type 0 where
  pub chunks : List (List ℕ)
  pub ending : Ending

-- SocksRelayError's `diagnostic`.
pub data Diagnostic : Type 0 where
  no_bytes : Diagnostic
  early_disconnect timed_out bad_version : ℕ → Diagnostic
  offered_methods : List ℕ → Diagnostic

pub data Result {ℓ} (A : Type ℓ) : Type ℓ where
  ok : A → Result A
  err : Option Diagnostic → Result A

-- The `onEnd`, `onError` and timer of `readExact`.
unfoldable pub failure : Ending → ℕ → Diagnostic
failure silent received = timed_out received
failure _ received = if received == 0 then no_bytes else early_disconnect received

-- The socket after `socket.unshift(remainder)`.
abbrev pub unshift : List ℕ → List (List ℕ) → Ending → Input
unshift [] chunks ending = record { chunks = chunks; ending = ending }
unshift (b ∷ bs) chunks ending = record { chunks = (b ∷ bs) ∷ chunks; ending = ending }

abbrev finish_read : ℕ → List ℕ → List (List ℕ) → Ending → Result (List ℕ × Input)
finish_read size got chunks ending = ok (take size got, unshift (drop size got) chunks ending)

-- The `while (received < size)` of `readExact`; `got` is `Buffer.concat(chunks)`.
receive : ℕ → List ℕ → List (List ℕ) → Ending → Result (List ℕ × Input)
receive size got [] ending =
    if ltb (length got) size
    then err (some (failure ending (length got)))
    else finish_read size got [] ending
receive size got (c ∷ cs) ending =
    let more = receive size (got ++ c) cs ending in
    if ltb (length got) size then more else finish_read size got (c ∷ cs) ending

-- readExact
unfoldable pub read_exact : ℕ → Input → Result (List ℕ × Input)
unfolding receive
read_exact size i = if ltb 65535 size then err none else receive size [] i.chunks i.ending

abbrev pub concat : List (List ℕ) → List ℕ
concat [] = []
concat (c ∷ cs) = c ++ concat cs

-- The abstract view of a socket: its bytes, however they were cut.
abbrev pub bytes : Input → List ℕ
bytes i = concat i.chunks

-- The specification of a read: the first bytes of the stream, or how it stopped short.
abbrev pub first_bytes : ℕ → List ℕ → Ending → Result (List ℕ × List ℕ × Ending)
first_bytes size bs ending =
    if ltb (length bs) size
    then err (some (failure ending (length bs)))
    else ok (take size bs, drop size bs, ending)

-- A read's result with its input seen as a stream.
abbrev pub viewed : Result (List ℕ × Input) → Result (List ℕ × List ℕ × Ending)
viewed (ok (bs, i)) = ok (bs, bytes i, i.ending)
viewed (err d) = err d

take-append : (n : ℕ) (xs ys : List ℕ) → n ≤ length xs → take n (xs ++ ys) ≡ take n xs
take-append zero xs ys h = refl
take-append (suc n) [] ys h = absurd (omega arith)
take-append (suc n) (x ∷ xs) ys h = ap (λ t. x ∷ t) (take-append n xs ys (omega arith))

drop-append : (n : ℕ) (xs ys : List ℕ) → n ≤ length xs → drop n (xs ++ ys) ≡ drop n xs ++ ys
drop-append zero xs ys h = refl
drop-append (suc n) [] ys h = absurd (omega arith)
drop-append (suc n) (x ∷ xs) ys h = drop-append n xs ys (omega arith)

ending-unshift : (bs : List ℕ) (cs : List (List ℕ)) (e : Ending) → (unshift bs cs e).ending ≡ e
ending-unshift [] cs e = refl
ending-unshift (b ∷ bs) cs e = refl

bytes-unshift :
    (bs : List ℕ) (cs : List (List ℕ)) (e : Ending) → bytes (unshift bs cs e) ≡ bs ++ concat cs
bytes-unshift [] cs e = refl
bytes-unshift (b ∷ bs) cs e = refl

receive-first_bytes :
    (size : ℕ) (got : List ℕ) (cs : List (List ℕ)) (e : Ending)
    → viewed (receive size got cs e) ≡ first_bytes size (got ++ concat cs) e
unfolding receive
receive-first_bytes size got [] e = rw append-nil (elim (Bool-cases (ltb (length got) size)) [
  | inl short ↦ rw short
  | inr long ↦
      rw (long, bytes-unshift (drop size got) [] e, ending-unshift (drop size got) [] e, append-nil)
])
receive-first_bytes size got (c ∷ cs) e = elim (Bool-cases (ltb (length got) size)) [
  | inl short ↦ rw short (receive-first_bytes size (got ++ c) cs e ∙ rw append_assoc)
  | inr long ↦
      let enough : size ≤ length got = ground (arith, long) in
      let whole : ltb (length (got ++ concat (c ∷ cs))) size ≡ false =
        ground (arith, length-append got (concat (c ∷ cs))) in
      rw (long, whole)
        (rw (
          bytes-unshift (drop size got) (c ∷ cs) e,
          ending-unshift (drop size got) (c ∷ cs) e,
          take-append size got (c ++ concat cs) enough,
          drop-append size got (c ++ concat cs) enough,
        ))
]

-- A read of at most 65535 bytes takes them off the socket's byte stream, whatever chunks the stream
-- came in, and leaves the rest of it; on a stream with fewer it fails by how the stream stopped and
-- how many bytes it had.
pub read_exact-first_bytes :
    (size : ℕ) (i : Input)
    → size ≤ 65535
    → viewed (read_exact size i) ≡ first_bytes size (bytes i) i.ending
unfolding read_exact
read_exact-first_bytes size i h =
    let fits : ltb 65535 size ≡ false = ground arith in
    rw fits (receive-first_bytes size [] i.chunks i.ending)

-- A socket with all its bytes in one chunk.
abbrev pub one : List ℕ → Ending → Input
one bs e = unshift bs [] e

pub bytes-one : (bs : List ℕ) (e : Ending) → bytes (one bs e) ≡ bs
bytes-one bs e = bytes-unshift bs [] e ∙ append-nil bs

take-length : (bs rest : List ℕ) → take (length bs) (bs ++ rest) ≡ bs
take-length [] rest = refl
take-length (b ∷ bs) rest = ap (λ t. b ∷ t) (take-length bs rest)

drop-length : (bs rest : List ℕ) → drop (length bs) (bs ++ rest) ≡ rest
drop-length [] rest = refl
drop-length (b ∷ bs) rest = drop-length bs rest

receive-one :
    (n : ℕ) (bs : List ℕ) (e : Ending)
    → n ≤ length bs
    → receive n [] (one bs e).chunks (one bs e).ending ≡ finish_read n bs [] e
unfolding receive
receive-one zero [] e h = refl
receive-one zero (b ∷ bs) e h = refl
receive-one (suc n) [] e h = absurd (omega arith)
receive-one (suc n) (b ∷ bs) e h =
    let more : ltb 0 (suc n) ≡ true = ground arith in
    let enough : ltb (length (b ∷ bs)) (suc n) ≡ false = ground arith in rw (more, enough)

-- A read of just the first bytes of a stream.
pub read_exact-one :
    (n : ℕ) (bs rest : List ℕ) (e : Ending)
    → length bs ≡ n
    → n ≤ 65535
    → read_exact n (one (bs ++ rest) e) ≡ ok (bs, one rest e)
unfolding read_exact
read_exact-one n bs rest e len few =
    let fits : ltb 65535 n ≡ false = ground arith in
    rw fits (
      receive-one n (bs ++ rest) e (omega (arith, length-append bs rest))
      ∙ rw (← len) (rw (take-length bs rest, drop-length bs rest)))
