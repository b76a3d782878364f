-- ===== src/Socks/Login/Parse.antt =====
-- The login message read back, by the format of RFC 1929.
use browserlogin_client.Prelude.{
  ℕ, ◌≤◌, String, Bool, true, false, not, Option, none, some, List, [], ◌∷◌, ◌++◌, ◌≡◌, refl, sym,
  ap, ◌∙◌, inl, inr, arith, ◌&&◌, ◌||◌, ◌==◌, ltb, if◌then◌else◌, length, length-append, take, drop,
  any, is_some, str_eq, Bool-cases,
}
use mathlib.Core.List.{append-nil}
use browserlogin_client.Socks.Login.{
  Upstream, utf8, credential, is_control, Relay, both, make_relay, byte, login,
}

-- A text behind its length, and what follows it.
unfoldable pub counted : List ℕ → Option (List ℕ × List ℕ)
counted [] = none
counted (n ∷ bs) = if ltb (length bs) n then none else some (take n bs, drop n bs)

abbrev last_counted : List ℕ → Option (List ℕ × List ℕ) → Option (List ℕ × List ℕ)
last_counted u (some (p, [])) = some (u, p)
last_counted u _ = none

abbrev then_counted : Option (List ℕ × List ℕ) → Option (List ℕ × List ℕ)
then_counted none = none
then_counted (some (u, rest)) = last_counted u (counted rest)

-- Version 1, then the username and the password, and nothing more.
unfoldable pub parse_login : List ℕ → Option (List ℕ × List ℕ)
parse_login [] = none
parse_login (v ∷ bs) = if v == 1 then then_counted (counted bs) else none

-- A text that the message can carry.
pub record Fits (bs : List ℕ) : Type 0 where
  pub short : length bs ≤ 255
  pub plain : any is_control bs ≡ false

take-length : (bs rest : List ℕ) → take (length bs) (bs ++ rest) ≡ bs
take-length [] rest = refl
take-length (b ∷ bs) rest = ap (λ t. b ∷ t) (take-length bs rest)

drop-length : (bs rest : List ℕ) → drop (length bs) (bs ++ rest) ≡ rest
drop-length [] rest = refl
drop-length (b ∷ bs) rest = drop-length bs rest

counted-append :
    (bs rest : List ℕ)
    → length bs ≤ 255
    → counted (byte (length bs) ∷ (bs ++ rest)) ≡ some (bs, rest)
unfolding counted
counted-append bs rest h =
    let whole : byte (length bs) ≡ length bs = omega arith in
    let enough : ltb (length (bs ++ rest)) (length bs) ≡ false =
      ground (arith, length-append bs rest) in
    rw whole (rw enough (rw (take-length bs rest, drop-length bs rest)))

parse_login-login :
    (r : Relay)
    → Fits r.username
    → Fits r.password
    → parse_login (login r) ≡ some (r.username, r.password)
unfolding parse_login
parse_login-login r u p =
    rw (counted-append r.username (byte (length r.password) ∷ r.password) u.short) (
      ap (last_counted r.username) (
        ap (λ t. counted (byte (length r.password) ∷ t)) (sym (append-nil r.password))
        ∙ counted-append r.password [] p.short))

-- The bytes of a text; an absent one has none.
abbrev pub text_bytes : Option String → List ℕ
text_bytes none = []
text_bytes (some s) = utf8 s

or-false : (a b : Bool) → a || b ≡ false → (a ≡ false) × (b ≡ false)
or-false true b h = cc
or-false false b h = (refl, h)

credential-Fits :
    (o : Option String) (bs : List ℕ) → credential o ≡ some bs → (bs ≡ text_bytes o) × Fits bs
unfolding credential
credential-Fits none bs e =
    let e' : bs ≡ [] = cc in (e', rw e' (record { short = omega arith; plain = refl }))
credential-Fits (some s) bs e =
    elim (Bool-cases (ltb 255 (length (utf8 s)) || any is_control (utf8 s))) [
      | inl bad ↦ cc (rw bad at e)
      | inr good ↦
          let e' : bs ≡ utf8 s = cc (rw good at e) in
          let (few, plain) = or-false (ltb 255 (length (utf8 s))) _ good in
          (e', rw e' (record { short = ground (arith, few); plain = plain }))
    ]

both-eq :
    (u p : Option (List ℕ)) (n : ℕ) (r : Relay)
    → both u p n ≡ some r
    → (u ≡ some r.username) × (p ≡ some r.password) × (1 ≤ n)
both-eq none p n r e = cc
both-eq (some u) none n r e = cc
both-eq (some u) (some p) n r e = ground arith

-- When the relay is built, its port is one of 1 to 65535 and its bound is positive, and the login
-- message that it sends reads, by the format of RFC 1929, as the UTF-8 bytes of the username and
-- of the password that it was given, an absent one as empty: each length fits its byte.
pub make_relay-login :
    (u : Upstream) (n : ℕ) (r : Relay)
    → make_relay u n ≡ some r
    → (parse_login (login r) ≡ some (text_bytes u.username, text_bytes u.password))
      × (1 ≤ u.port)
      × (u.port ≤ 65535)
      × (1 ≤ n)
unfolding make_relay
make_relay-login u n r e =
    elim (Bool-cases (str_eq u.host "" || (ltb u.port 1 || ltb 65535 u.port))) [
      | inl bad ↦ cc (rw bad at e)
      | inr good ↦ elim (Bool-cases (not (is_some u.username) && not (is_some u.password))) [
        | inl bare ↦ cc (rw (good, bare) at e)
        | inr given ↦
            let (eu, ep, positive) = both-eq _ _ n r (rw (good, given) at e) in
            let (tu, fu) = credential-Fits u.username r.username eu in
            let (tp, fp) = credential-Fits u.password r.password ep in
            let ports = or-false (str_eq u.host "") _ good in
            let (low, high) = or-false (ltb u.port 1) _ ports.1 in
            (
              rw (← tu, ← tp) (parse_login-login r fu fp),
              ground (arith, low),
              ground (arith, high),
              positive,
            )
      ]
    ]
