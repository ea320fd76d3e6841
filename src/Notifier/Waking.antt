-- ===== src/Notifier/Waking.antt =====
-- No wake-up is lost: what a call of Notify has left in a pipe that the agent watches.
use magneto.Base.{
  ℕ, zero, suc, ◌<◌, ◌≡◌, ◌∙◌, refl, sym, ap, subst, inl, inr, ◌==◌, ==_iff, Bool, true, false,
  Bool-cases, some, some_inj, negsuc, arith,
}
use magneto.Notifier.{Answers, Notifier, created, take_byte, clear_loop, clear_read_buf, notify}
use magneto.Notifier.Keeping.{
  Works, Linked, Inv, Signalled, Keeps, notify-Way, Way-Keeps, Way-Inv, Way-Signalled,
}

-- What reading from a pipe changes: nothing but its bytes.
record Drained (r : ℕ) (s s' : Notifier) : Type 0 where
  pub slots_same : s'.slots ≡ s.slots
  pub in_use_same : s'.in_use ≡ s.in_use
  pub peer_same : s'.peer ≡ s.peer
  pub registered_same : s'.registered ≡ s.registered
  pub others : (q : ℕ) → (r == q) ≡ false → s'.bytes q ≡ s.bytes q
  pub empty : s'.bytes r ≡ 0

clear_loop-Drained :
    (fuel r : ℕ) (s : Notifier)
    → s.bytes r < fuel
    → (s' : Notifier) × (clear_loop fuel r s ≡ some s') × Drained r s s'
unfolding clear_loop
clear_loop-Drained zero r s k = absurd (omega arith)
clear_loop-Drained (suc fuel) r s k = elim (Bool-cases (s.bytes r == 0)) [
  | inl empty ↦ (
    s,
    simp (empty, clear_loop),
    record {
      slots_same = refl;
      in_use_same = refl;
      peer_same = refl;
      registered_same = refl;
      others = λ q ne. refl;
      empty = ground arith;
    },
  )
  | inr some_left ↦
      let (s', run, d) = clear_loop-Drained fuel r (take_byte r s) (ground arith) in
      (
        s',
        simp (some_left, clear_loop, run),
        record {
          slots_same = d.slots_same;
          in_use_same = d.in_use_same;
          peer_same = d.peer_same;
          registered_same = d.registered_same;
          others = λ q ne. d.others q ne ∙ ground arith;
          empty = d.empty;
        },
      )
]

clear_read_buf-Drained :
    (r : ℕ) (s : Notifier) → (s' : Notifier) × (clear_read_buf r s ≡ some s') × Drained r s s'
unfolding clear_read_buf
clear_read_buf-Drained r s = clear_loop-Drained (suc (s.bytes r)) r s (omega arith)

-- Any calls of Notify, by any threads, and of ClearReadBuf, on any descriptor but those spared.
pub data Calls (capacity : ℕ) (spared : ℕ → Bool) (s : Notifier) : Notifier → Type 0 where
  none_yet : Calls capacity spared s s
  notified :
      {s' : Notifier} (t : ℕ) (a : Answers)
      → Calls capacity spared s s'
      → Works s' a
      → Calls capacity spared s (notify capacity t a s').1
  cleared :
      {s' s'' : Notifier} (r : ℕ)
      → Calls capacity spared s s'
      → spared r ≡ false
      → clear_read_buf r s' ≡ some s''
      → Calls capacity spared s s''

clear_read_buf-result : (r : ℕ) (s s' : Notifier) → clear_read_buf r s ≡ some s' → Drained r s s'
clear_read_buf-result r s s' run =
    let (s0, run0, d) = clear_read_buf-Drained r s in
    subst (Drained r s) (some_inj (sym run0 ∙ run)) d

Drained-Linked : (r : ℕ) (s s' : Notifier) (w : ℕ) → Drained r s s' → Linked s w → Linked s' w
Drained-Linked r s s' w d l = rw (d.in_use_same, d.peer_same, d.registered_same) l

Drained-Inv : (r : ℕ) (s s' : Notifier) → Drained r s s' → Inv s → Inv s'
Drained-Inv r s s' d inv t w e =
    Drained-Linked r s s' w d (inv t w (ap (λ f. f t) (sym d.slots_same) ∙ e))

Calls-Inv :
    {capacity : ℕ} {spared : ℕ → Bool} {s s' : Notifier}
    → Calls capacity spared s s'
    → Inv s
    → Inv s'
Calls-Inv none_yet inv = inv
Calls-Inv {capacity} (notified {s'} t a calls works) inv =
    Way-Inv capacity t a s' _ (notify-Way capacity t a s' works) (Calls-Inv calls inv)
Calls-Inv (cleared {s'} {s''} r calls free run) inv =
    Drained-Inv r s' s'' (clear_read_buf-result r s' s'' run) (Calls-Inv calls inv)

Keeps-trans : (u v : ℕ) (s s' s'' : Notifier) → Keeps s u v s' → Keeps s' u v s'' → Keeps s u v s''
Keeps-trans u v s s' s'' (e, k) (e', k') = (e', (k'.0, k'.1 ∙ k.1, ground (arith, k, k')))

Calls-Keeps :
    {capacity : ℕ} {spared : ℕ → Bool} {s s' : Notifier} (u v : ℕ)
    → Calls capacity spared s s'
    → spared (s.peer v) ≡ true
    → Inv s
    → s.slots u ≡ some v
    → Keeps s u v s'
Calls-Keeps {s} u v none_yet spare inv e = (e, (inv u v e, refl, omega arith))
Calls-Keeps {capacity} {s} u v (notified {s'} t a calls works) spare inv e =
    let before = Calls-Keeps u v calls spare inv e in
    Keeps-trans u v s s' (notify capacity t a s').1 before (
      Way-Keeps capacity t a s' (notify capacity t a s') u v (notify-Way capacity t a s' works)
        before.0 before.1.0)
Calls-Keeps {spared} {s} u v (cleared {s'} {s''} r calls free run) spare inv e =
    let before = Calls-Keeps u v calls spare inv e in
    let d = clear_read_buf-result r s' s'' run in
    let other : (r == s'.peer v) ≡ false = elim (Bool-cases (r == s'.peer v)) [
      | inr apart ↦ apart
      | inl hit ↦
          let hits : r ≡ s.peer v = (==_iff r _).0 hit ∙ before.1.1 in
          let taken : spared r ≡ true = ap spared hits ∙ spare in absurd (ground arith)
    ] in
    Keeps-trans u v s s' s'' before (
      ap (λ f. f u) d.slots_same ∙ before.0,
      (
        Drained-Linked r s' s'' v d before.1.0,
        ap (λ f. f v) d.peer_same,
        let same = d.others (s'.peer v) other in omega arith,
      ),
    )

-- With pipes that hold a byte at least, of which the system opens each on free descriptors, and as long
-- as RegEvent succeeds: when a thread calls Notify, after any calls by any threads, and the answer is
-- neither that no pipe could be opened nor that the thread could not keep it, then the agent watches
-- the pipe of that thread and finds a byte in it, whatever other calls follow, until ClearReadBuf reads
-- from this pipe.
pub notify-Signalled :
    (capacity : ℕ) (in_use : ℕ → Bool) (t : ℕ) (a : Answers) (s s' : Notifier) (w : ℕ)
    → 0 < capacity
    → Calls capacity (λ r. false) (created in_use) s
    → Works s a
    → ¬ ((notify capacity t a s).0 ≡ negsuc 0)
    → ¬ ((notify capacity t a s).0 ≡ negsuc 1)
    → (notify capacity t a s).1.slots t ≡ some w
    → Calls capacity (λ r. r == (notify capacity t a s).1.peer w) (notify capacity t a s).1 s'
    → Signalled t s'
notify-Signalled capacity in_use t a s s' w c before works n0 n1 has after =
    let inv = Calls-Inv before (λ u v e. absurd (ground arith)) in
    let way = notify-Way capacity t a s works in
    let signal = Way-Signalled capacity t a s (notify capacity t a s) way c inv n0 n1 in
    let inv' = Way-Inv capacity t a s (notify capacity t a s) way inv in
    let kept = Calls-Keeps t w after ((==_iff _ _).1 refl) inv' has in
    let same : signal.write_end ≡ w = some_inj (sym signal.slot ∙ has) in
    let s1 = (notify capacity t a s).1 in
    let first : 0 < s1.bytes (s1.peer w) = subst (λ x. 0 < s1.bytes (s1.peer x)) same signal.full in
    let still : 0 < s'.bytes (s1.peer w) = omega (arith, kept.1.2) in
    record {
      write_end = w;
      slot = kept.0;
      watched = kept.1.0.2;
      full = subst (λ q. 0 < s'.bytes q) (sym kept.1.1) still;
    }
