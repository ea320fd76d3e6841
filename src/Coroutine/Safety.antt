-- ===== src/Coroutine/Safety.antt =====
-- No procedure is resumed that does not wait, and none is given back while a message names it.
use magneto.Base.{
  ℕ, ◌+◌, ◌==◌, ◌≡◌, refl, sym, Bool, true, false, if◌then◌else◌, List, [], ◌∷◌, ◌++◌, Option, none,
  some, arith,
}
use magneto.Coroutine.{
  Status, pooled, running, sending, suspended, Task, new_req, session, System, initial, switch_to,
  get_current, send_talks, swap_out, finish, send_back, arrive, Step, arrives, starts, resumes,
  sends, swaps, finishes, answers, Reach, begin, next,
}

-- How many messages name a procedure: with the agents, and on the way to the scheduler.
abbrev pub count : ℕ → List ℕ → ℕ
count p [] = 0
count p (q ∷ sent) = (if q == p then 1 else 0) + count p sent

abbrev pub sessions : ℕ → List Task → ℕ
sessions p [] = 0
sessions p (new_req ∷ queue) = sessions p queue
sessions p (session q ∷ queue) = (if q == p then 1 else 0) + sessions p queue

abbrev pub named : ℕ → System → ℕ
named p s = count p s.sent + sessions p s.queue

-- How many there are to be.
abbrev pub owed : Status → ℕ
owed pooled = 0
owed running = 0
owed sending = 1
owed suspended = 1

abbrev pub active : Status → Bool
active pooled = false
active running = true
active sending = true
active suspended = false

abbrev pub is_current : ℕ → Option ℕ → Bool
is_current p none = false
is_current p (some q) = q == p

pub record Inv (s : System) : Type 0 where
  pub names : (p : ℕ) → named p s ≡ owed (s.status p)
  pub runs : (p : ℕ) → active (s.status p) ≡ is_current p s.current
  pub slots : (p : ℕ) → s.current ≡ some p → s.slot ≡ some p

count-append : (p : ℕ) (xs ys : List ℕ) → count p (xs ++ ys) ≡ count p xs + count p ys
count-append p [] ys = omega arith
count-append p (x ∷ xs) ys = omega (arith, count-append p xs ys)

sessions-append :
    (p : ℕ) (xs ys : List Task) → sessions p (xs ++ ys) ≡ sessions p xs + sessions p ys
sessions-append p [] ys = omega arith
sessions-append p (new_req ∷ xs) ys = sessions-append p xs ys
sessions-append p (session q ∷ xs) ys = omega (arith, sessions-append p xs ys)

Step-Inv : {s t : System} → Step s t → Inv s → Inv t
unfolding switch_to send_talks swap_out finish send_back arrive
Step-Inv (arrives s) inv = record {
  names = λ q. ground (arith, inv.names q, sessions-append q s.queue (new_req ∷ []));
  runs = inv.runs;
  slots = inv.slots;
}
Step-Inv (starts s p queue idle front free) inv = record {
  names = λ q. ground (arith, inv.names q);
  runs = λ q. ground (arith, inv.runs q, inv.runs p);
  slots = λ q e. e;
}
Step-Inv (resumes s p queue idle front) inv = record {
  names = λ q. ground (arith, inv.names q, inv.names p, inv.runs p);
  runs = λ q. ground (arith, inv.runs q, inv.runs p);
  slots = λ q e. e;
}
Step-Inv (sends s p on busy) inv = record {
  names = λ q. ground (arith, inv.names q);
  runs = λ q. ground (arith, inv.runs q, inv.runs p);
  slots = inv.slots;
}
Step-Inv (swaps s p on busy) inv = record {
  names = λ q. ground (arith, inv.names q);
  runs = λ q. ground (arith, inv.runs q, inv.runs p);
  slots = λ q e. absurd (ground arith);
}
Step-Inv (finishes s p on busy) inv = record {
  names = λ q. ground (arith, inv.names q);
  runs = λ q. ground (arith, inv.runs q, inv.runs p);
  slots = λ q e. absurd (ground arith);
}
Step-Inv (answers s before p after there) inv = record {
  names = λ q. ground (
    arith,
    inv.names q,
    count-append q before after,
    count-append q before (p ∷ after),
    sessions-append q s.queue (session p ∷ []),
  );
  runs = inv.runs;
  slots = inv.slots;
}

Inv-initial : Inv initial
Inv-initial = record {
  names = λ p. ground arith;
  runs = λ p. refl;
  slots = λ p e. absurd (ground arith);
}

Reach-Inv : {s : System} → Reach s → Inv s
Reach-Inv begin = Inv-initial
Reach-Inv (next r st) = Step-Inv st (Reach-Inv r)

-- What is so of a procedure, by where it is.
abbrev pub Described : ℕ → System → Status → Type 0
Described p s pooled = (named p s ≡ 0) × (is_current p s.current ≡ false)
Described p s running = (named p s ≡ 0) × (s.current ≡ some p) × (get_current s ≡ some p)
Described p s sending = (named p s ≡ 1) × (s.current ≡ some p) × (get_current s ≡ some p)
Described p s suspended = (named p s ≡ 1) × (is_current p s.current ≡ false)

-- If the scheduler is to turn to a procedure whose talks are done, that procedure waits for it.
abbrev pub FrontWaits : System → Option ℕ → List Task → Type 0
FrontWaits s none (session p ∷ queue) = s.status p ≡ suspended
FrontWaits s _ _ = Unit

is_current-some : (p : ℕ) (c : Option ℕ) → is_current p c ≡ true → c ≡ some p
is_current-some p none e = absurd (ground arith)
is_current-some p (some q) e = ground arith

Inv-Described :
    (p : ℕ) (s : System) (st : Status)
    → Inv s
    → named p s ≡ owed st
    → active st ≡ is_current p s.current
    → Described p s st
Inv-Described p s pooled inv names runs = (names, sym runs)
Inv-Described p s suspended inv names runs = (names, sym runs)
Inv-Described p s running inv names runs =
    let on = is_current-some p s.current (sym runs) in (names, on, inv.slots p on)
Inv-Described p s sending inv names runs =
    let on = is_current-some p s.current (sym runs) in (names, on, inv.slots p on)

Inv-FrontWaits :
    (s : System) (c : Option ℕ) (queue : List Task)
    → s.current ≡ c
    → s.queue ≡ queue
    → Inv s
    → FrontWaits s c queue
Inv-FrontWaits s none (session p ∷ queue) e f inv = ground (arith, inv.names p, inv.runs p)
Inv-FrontWaits s none (new_req ∷ queue) e f inv = tt
Inv-FrontWaits s none [] e f inv = tt
Inv-FrontWaits s (some q) queue e f inv = tt

-- Whatever the order in which requests arrive, procedures run and agents answer, also before a
-- procedure has given control up: when the scheduler is to resume a procedure, that procedure waits
-- for just this; a procedure in the pool, or one that runs and has sent nothing, is named by no
-- message anywhere; one that has sent its talks or waits, by exactly one; and a procedure that
-- runs is the only one and the one that GetCurrentBizProcedure gives.
pub Reach-Safe :
    {s : System} → Reach s → FrontWaits s s.current s.queue × ((p : ℕ) → Described p s (s.status p))
Reach-Safe {s} r =
    let inv = Reach-Inv r in
    (
      Inv-FrontWaits s s.current s.queue refl refl inv,
      λ p. Inv-Described p s (s.status p) inv (inv.names p) (inv.runs p),
    )
