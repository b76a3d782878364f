-- ===== src/Locks/Mutex/Turns.antt =====
-- The invariant of the calls under one key: their turns.
use browserlogin_client.Prelude.{
  ℕ, suc, Bool, true, false, Option, none, some, List, [], ◌∷◌, ◌==◌, if◌then◌else◌, if-cases, ◌≡◌,
  refl, sym, ap, ◌∙◌, arith, length, All,
}
use browserlogin_client.Locks.Mutex.{
  Stage, waiting, working, released, Call, Mutex, new_mutex, is_released, resolved, enqueue,
  begin_at, change, begin_call, begin, release_at, release_call, works, is_working, is_tail, finish,
  MutexEvent, enqueues, begins, ends, handle, handle_all,
}

abbrev pub AllReleased : List Call → Type 0
AllReleased cs = All (λ c. c.stage ≡ released) cs

abbrev pub Started : List Call → Stage → Type 0
Started before waiting = Unit
Started before _ = AllReleased before

-- The promise is that of the last call, or all calls have released.
abbrev pub IsLast : List Call → Option ℕ → Type 0
IsLast cs none = AllReleased cs
IsLast cs (some n) = suc n ≡ length cs

-- A call and those before it: it works, or has released, only once all of them have released; it awaits the
-- last of them, or none when all have released; and what it awaits has resolved once they have.
pub record Turn (before : List Call) (c : Call) : Type 0 where
  pub started : Started before c.stage
  pub awaits : IsLast before c.previous
  pub free : AllReleased before → resolved before c.previous ≡ true

abbrev pub InTurn : List Call → Type 0
InTurn [] = Unit
InTurn (c ∷ cs) = Turn cs c × InTurn cs

pub record Ordered (m : Mutex) : Type 0 where
  pub in_turn : InTurn m.calls
  pub last : IsLast m.calls m.tail

AllReleased-resolved : (cs : List Call) (p : Option ℕ) → AllReleased cs → resolved cs p ≡ true
unfolding resolved
AllReleased-resolved cs none h = refl
AllReleased-resolved [] (some n) h = refl
AllReleased-resolved (c ∷ cs) (some n) h =
    if-cases (λ b. b ≡ true) (n == length cs) _ _
      (λ _. rw (h.0, AllReleased-resolved cs c.previous h.1) refl)
      (λ _. AllReleased-resolved cs (some n) h.1)

is_released-eq : (s : Stage) → is_released s ≡ true → s ≡ released
is_released-eq waiting h = cc
is_released-eq working h = cc
is_released-eq released h = refl

started-AllReleased : (cs : List Call) (s : Stage) → Started cs s → s ≡ released → AllReleased cs
started-AllReleased cs waiting h e = cc
started-AllReleased cs working h e = h
started-AllReleased cs released h e = h

resolved-AllReleased :
    (cs : List Call) (p : Option ℕ)
    → InTurn cs
    → IsLast cs p
    → resolved cs p ≡ true
    → AllReleased cs
unfolding resolved
resolved-AllReleased cs none t l h = l
resolved-AllReleased [] (some n) t l h = tt
resolved-AllReleased (c ∷ cs) (some n) t l h =
    let here : (n == length cs) ≡ true = ground (arith, l) in
    let both = rw here at h in
    let mine : c.stage ≡ released = is_released-eq c.stage (ground (arith, both)) in
    (mine, started-AllReleased cs c.stage t.0.started mine)

length-change :
    (f : List Call → Call → Call) (n : ℕ) (cs : List Call) → length (change f n cs) ≡ length cs
unfolding change
length-change f n [] = refl
length-change f n (c ∷ cs) =
    if-cases (λ (ds : List Call). length ds ≡ suc (length cs)) (n == length cs) _ _ (λ _. refl)
      (λ _. ap suc (length-change f n cs))

-- A change that keeps what a call awaits, leaves a released call released, and lets a call start only
-- in its turn.
module _ (f : List Call → Call → Call)
    (same : (cs : List Call) (c : Call) → (f cs c).previous ≡ c.previous)
    (stays : (cs : List Call) (c : Call) → c.stage ≡ released → (f cs c).stage ≡ released)
    (turn : (cs : List Call) (c : Call) → InTurn cs → Turn cs c → Started cs (f cs c).stage) where
  change-AllReleased : (n : ℕ) (cs : List Call) → AllReleased cs → AllReleased (change f n cs)
  unfolding change
  change-AllReleased n [] h = tt
  change-AllReleased n (c ∷ cs) h =
      if-cases AllReleased (n == length cs) _ _ (λ _. (stays cs c h.0, h.1))
        (λ _. (h.0, change-AllReleased n cs h.1))

  change-Started : (n : ℕ) (cs : List Call) (s : Stage) → Started cs s → Started (change f n cs) s
  change-Started n cs waiting h = tt
  change-Started n cs working h = change-AllReleased n cs h
  change-Started n cs released h = change-AllReleased n cs h

  change-IsLast : (n : ℕ) (cs : List Call) (p : Option ℕ) → IsLast cs p → IsLast (change f n cs) p
  change-IsLast n cs none h = change-AllReleased n cs h
  change-IsLast n cs (some k) h = h ∙ sym (length-change f n cs)

  change-InTurn : (n : ℕ) (cs : List Call) → InTurn cs → InTurn (change f n cs)
  unfolding change
  change-InTurn n [] t = tt
  change-InTurn n (c ∷ cs) t =
      if-cases InTurn (n == length cs) _ _
        (λ _. (
          record {
            started = turn cs c t.1 t.0;
            awaits = rw (same cs c) t.0.awaits;
            free = AllReleased-resolved cs _;
          },
          t.1,
        ))
        (λ _. (
          record {
            started = change-Started n cs c.stage t.0.started;
            awaits = change-IsLast n cs c.previous t.0.awaits;
            free = AllReleased-resolved _ _;
          },
          change-InTurn n cs t.1,
        ))

begin-turn :
    (cs : List Call) (c : Call) → InTurn cs → Turn cs c → Started cs (begin_call cs c).stage
unfolding begin_call
begin-turn cs c t h = at_stage c.stage h.started (resolved cs c.previous) refl
  where
    at_stage :
        (s : Stage)
        → Started cs s
        → (b : Bool) → resolved cs c.previous ≡ b
        → Started cs (begin_at s b)
    at_stage waiting k true e = resolved-AllReleased cs c.previous t h.awaits e
    at_stage waiting k false e = tt
    at_stage working k b e = k
    at_stage released k b e = k

begin-stays : (cs : List Call) (c : Call) → c.stage ≡ released → (begin_call cs c).stage ≡ released
unfolding begin_call
begin-stays cs c e = rw e refl

release-turn :
    (cs : List Call) (c : Call) → InTurn cs → Turn cs c → Started cs (release_call cs c).stage
unfolding release_call
release-turn cs c t h = at_stage c.stage h.started
  where
    at_stage : (s : Stage) → Started cs s → Started cs (release_at s)
    at_stage waiting k = tt
    at_stage working k = k
    at_stage released k = k

release-stays :
    (cs : List Call) (c : Call) → c.stage ≡ released → (release_call cs c).stage ≡ released
unfolding release_call
release-stays cs c e = rw e refl

works-released :
    (cs : List Call) (s : Stage)
    → Started cs s
    → works s ≡ true
    → AllReleased cs × (release_at s ≡ released)
works-released cs waiting h w = cc
works-released cs working h w = (h, refl)
works-released cs released h w = cc

-- Once the last call has released, all have.
last-releases :
    (n : ℕ) (cs : List Call)
    → InTurn cs
    → suc n ≡ length cs
    → is_working n cs ≡ true
    → AllReleased (change release_call n cs)
unfolding change is_working release_call
last-releases n [] t l w = tt
last-releases n (c ∷ cs) t l w =
    let here : (n == length cs) ≡ true = ground (arith, l) in
    let (before, done) = works-released cs c.stage t.0.started (rw here at w) in
    rw here (done, before)

enqueue-Ordered : (m : Mutex) → Ordered m → Ordered (enqueue m)
unfolding enqueue
enqueue-Ordered m h = record {
  in_turn = (
    record { started = tt; awaits = h.last; free = AllReleased-resolved m.calls m.tail },
    h.in_turn,
  );
  last = refl;
}

begin-Ordered : (n : ℕ) (m : Mutex) → Ordered m → Ordered (begin n m)
unfolding begin
begin-Ordered n m h = record {
  in_turn = change-InTurn begin_call (λ cs c. refl) begin-stays begin-turn n m.calls h.in_turn;
  last = change-IsLast begin_call (λ cs c. refl) begin-stays begin-turn n m.calls m.tail h.last;
}

finish-Ordered : (n : ℕ) (m : Mutex) → Ordered m → Ordered (finish n m)
unfolding finish
finish-Ordered n m h =
    if-cases Ordered (is_working n m.calls) _ _
      (λ w. record {
        in_turn =
            change-InTurn release_call (λ cs c. refl) release-stays release-turn n m.calls
              h.in_turn;
        last = after m.tail h.last w;
      })
      (λ _. h)
  where
    kept : (t : Option ℕ) → IsLast m.calls t → IsLast (change release_call n m.calls) t
    kept t l = change-IsLast release_call (λ cs c. refl) release-stays release-turn n m.calls t l

    after :
        (t : Option ℕ)
        → IsLast m.calls t
        → is_working n m.calls ≡ true
        → IsLast (change release_call n m.calls) (if is_tail n t then none else t)
    after none l w = kept none l
    after (some k) l w =
        if-cases (IsLast (change release_call n m.calls)) (k == n) _ _
          (λ same. last-releases n m.calls h.in_turn (ground (arith, l, same)) w)
          (λ _. kept (some k) l)

handle_all-Ordered : (es : List MutexEvent) (m : Mutex) → Ordered m → Ordered (handle_all es m)
unfolding handle_all handle
handle_all-Ordered [] m h = h
handle_all-Ordered (enqueues ∷ es) m h = handle_all-Ordered es _ (enqueue-Ordered m h)
handle_all-Ordered (begins n ∷ es) m h = handle_all-Ordered es _ (begin-Ordered n m h)
handle_all-Ordered (ends n ∷ es) m h = handle_all-Ordered es _ (finish-Ordered n m h)

-- However calls of `enqueue` under one key come, continue and end, a call works or has released only once
-- all calls before it have released, so they work one at a time and in the order in which they came;
-- and once all before it have released, the promise that a call awaits has resolved.
pub handle_all-InTurn : (es : List MutexEvent) → InTurn (handle_all es new_mutex).calls
handle_all-InTurn es =
    (handle_all-Ordered es new_mutex (record { in_turn = tt; last = tt })).in_turn
