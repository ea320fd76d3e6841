-- ===== src/Notifier/Keeping.antt =====
-- What one call of Notify does to the pipes of the threads.
use magneto.Base.{
  ℕ, ◌<◌, ◌≤◌, ◌≡◌, ◌∙◌, refl, sym, ap, subst, inl, inr, ◌==◌, true, false, Bool-cases,
  Option-cases, Option, none, some, ℤ, negsuc, arith,
}
use magneto.Notifier.{
  Answers, Notifier, open_pipe, reg_event, reg_event_del, set_specific, send, notify,
}

-- The system opens a pipe on two descriptors that are free.
abbrev pub Fresh : Notifier → Option (ℕ × ℕ) → Type 0
Fresh s none = Unit
Fresh s (some (r, w)) = (s.in_use r ≡ false) × (s.in_use w ≡ false) × ((r == w) ≡ false)

-- What came of the system in a call: the pipe is fresh, and RegEvent succeeds.
pub record Works (s : Notifier) (answers : Answers) : Type 0 where
  pub fresh : Fresh s answers.opened
  pub watches : answers.watched ≡ true

-- A pipe of the thread that the agent watches.
abbrev pub Linked : Notifier → ℕ → Type 0
Linked s w = (s.in_use w ≡ true) × (s.in_use (s.peer w) ≡ true) × (s.registered (s.peer w) ≡ true)

abbrev pub Inv : Notifier → Type 0
Inv s = (t w : ℕ) → s.slots t ≡ some w → Linked s w

-- The agent will find the thread's byte.
pub record Signalled (t : ℕ) (s : Notifier) : Type 0 where
  pub write_end : ℕ
  pub slot : s.slots t ≡ some write_end
  pub watched : s.registered (s.peer write_end) ≡ true
  pub full : 0 < s.bytes (s.peer write_end)

-- A pipe that is watched stays so, and loses no byte.
abbrev pub Kept : Notifier → Notifier → ℕ → Type 0
Kept s s' v = Linked s' v × (s'.peer v ≡ s.peer v) × (s.bytes (s.peer v) ≤ s'.bytes (s.peer v))

send-Kept : (capacity w : ℕ) (s : Notifier) (v : ℕ) → Linked s v → Kept s (send capacity w s).1 v
unfolding send
send-Kept capacity w s v l = ground (arith, l)

send-slots : (capacity w : ℕ) (s : Notifier) (t : ℕ) → (send capacity w s).1.slots t ≡ s.slots t
unfolding send
send-slots capacity w s t = ground arith

send-full :
    (capacity w : ℕ) (s : Notifier)
    → 0 < capacity
    → 0 < (send capacity w s).1.bytes ((send capacity w s).1.peer w)
unfolding send
send-full capacity w s c = ground arith

module _ (r w : ℕ) (s : Notifier) (fresh : Fresh s (some (r, w))) where
  open-Kept : (v : ℕ) → Linked s v → Kept s (reg_event true r (open_pipe r w s)) v
  open-Kept v l = ground (arith, l, fresh)

  open-Linked : Linked (reg_event true r (open_pipe r w s)) w
  open-Linked = ground (arith, fresh)

  del-Kept : (v : ℕ) → Linked s v → Kept s (reg_event_del w (reg_event true r (open_pipe r w s))) v
  del-Kept v l = ground (arith, l, fresh)

-- The ways through Notify, when RegEvent succeeds.
pub data Way (capacity t : ℕ) (a : Answers) (s : Notifier) (out : ℤ × Notifier) : Type 0 where
  had : (w : ℕ) → s.slots t ≡ some w → out ≡ send capacity w s → Way capacity t a s out
  unopened : out ≡ (negsuc 0, s) → Way capacity t a s out
  linked :
      (r w : ℕ)
      → s.slots t ≡ none
      → Fresh s (some (r, w))
      → out ≡ send capacity w (set_specific t w (reg_event true r (open_pipe r w s)))
      → Way capacity t a s out
  unkept :
      (r w : ℕ)
      → Fresh s (some (r, w))
      → out ≡ (negsuc 1, reg_event_del w (reg_event true r (open_pipe r w s)))
      → Way capacity t a s out

pub notify-Way :
    (capacity t : ℕ) (a : Answers) (s : Notifier)
    → Works s a
    → Way capacity t a s (notify capacity t a s)
unfolding notify
notify-Way capacity t a s works = elim (Option-cases (s.slots t)) [
  | inr (w, there) ↦ had w there (simp (there, notify))
  | inl none_yet ↦ elim (Option-cases a.opened) [
    | inl failed ↦ unopened (simp (none_yet, failed, notify))
    | inr ((r, w), ends) ↦
        let fresh = subst (Fresh s) ends works.fresh in
        elim (Bool-cases a.kept) [
          | inl kept ↦
              linked r w none_yet fresh (simp (none_yet, ends, kept, works.watches, notify))
          | inr lost ↦ unkept r w fresh (simp (none_yet, ends, lost, works.watches, notify))
        ]
  ]
]

abbrev pub Keeps : Notifier → ℕ → ℕ → Notifier → Type 0
Keeps s u v s' = (s'.slots u ≡ some v) × Kept s s' v

module _ (capacity t : ℕ) (a : Answers) (s : Notifier) where
  -- What a thread has is not lost when any thread calls Notify.
  pub Way-Keeps :
      (out : ℤ × Notifier) (u v : ℕ)
      → Way capacity t a s out
      → s.slots u ≡ some v
      → Linked s v
      → Keeps s u v out.1
  Way-Keeps out u v (had w there run) e l =
      subst (λ o. Keeps s u v o.1) (sym run)
        (send-slots capacity w s u ∙ e, send-Kept capacity w s v l)
  Way-Keeps out u v (unopened run) e l =
      subst (λ o. Keeps s u v o.1) (sym run) (e, (l, refl, omega arith))
  Way-Keeps out u v (unkept r w fresh run) e l =
      subst (λ o. Keeps s u v o.1) (sym run) (e, del-Kept r w s fresh v l)
  Way-Keeps out u v (linked r w none_yet fresh run) e l =
      let s1 = set_specific t w (reg_event true r (open_pipe r w s)) in
      let before = open-Kept r w s fresh v l in
      let after = send-Kept capacity w s1 v before.0 in
      let other : (t == u) ≡ false = ground (arith, e, none_yet) in
      subst (λ o. Keeps s u v o.1) (sym run)
        (
          send-slots capacity w s1 u ∙ rw other e,
          (after.0, after.1 ∙ before.1, ground (arith, before, after)),
        )

  pub Way-Inv : (out : ℤ × Notifier) → Way capacity t a s out → Inv s → Inv out.1
  Way-Inv out (had w there run) inv u v e =
      let e' : s.slots u ≡ some v =
        sym (send-slots capacity w s u) ∙ ap (λ o. o.1.slots u) (sym run) ∙ e in
      (Way-Keeps out u v (had w there run) e' (inv u v e')).1.0
  Way-Inv out (unopened run) inv u v e =
      subst (λ o. Linked o.1 v) (sym run) (inv u v (ap (λ o. o.1.slots u) (sym run) ∙ e))
  Way-Inv out (unkept r w fresh run) inv u v e =
      let e' : s.slots u ≡ some v = ap (λ o. o.1.slots u) (sym run) ∙ e in
      (Way-Keeps out u v (unkept r w fresh run) e' (inv u v e')).1.0
  Way-Inv out (linked r w none_yet fresh run) inv u v e =
      let s1 = set_specific t w (reg_event true r (open_pipe r w s)) in
      let held : s1.slots u ≡ some v =
        sym (send-slots capacity w s1 u) ∙ ap (λ o. o.1.slots u) (sym run) ∙ e in
      elim (Bool-cases (t == u)) [
        | inl mine ↦
            let same : w ≡ v = ground (arith, held) in
            subst (λ o. Linked o.1 v) (sym run)
              (subst (λ x. Linked (send capacity w s1).1 x) same
                (send-Kept capacity w s1 w (open-Linked r w s fresh)).0)
        | inr other ↦
            let e' : s.slots u ≡ some v = ground (arith, held) in
            (Way-Keeps out u v (linked r w none_yet fresh run) e' (inv u v e')).1.0
      ]

  pub Way-Signalled :
      (out : ℤ × Notifier)
      → Way capacity t a s out
      → 0 < capacity
      → Inv s
      → ¬ (out.0 ≡ negsuc 0)
      → ¬ (out.0 ≡ negsuc 1)
      → Signalled t out.1
  Way-Signalled out (had w there run) c inv n0 n1 =
      let kept = send-Kept capacity w s w (inv t w there) in
      subst (λ o. Signalled t o.1) (sym run)
        (record {
          write_end = w;
          slot = send-slots capacity w s t ∙ there;
          watched = kept.0.2;
          full = send-full capacity w s c;
        })
  Way-Signalled out (unopened run) c inv n0 n1 = absurd (n0 (ap (λ o. o.0) run))
  Way-Signalled out (unkept r w fresh run) c inv n0 n1 = absurd (n1 (ap (λ o. o.0) run))
  Way-Signalled out (linked r w none_yet fresh run) c inv n0 n1 =
      let s1 = set_specific t w (reg_event true r (open_pipe r w s)) in
      let kept = send-Kept capacity w s1 w (open-Linked r w s fresh) in
      subst (λ o. Signalled t o.1) (sym run)
        (record {
          write_end = w;
          slot = send-slots capacity w s1 t ∙ ground arith;
          watched = kept.0.2;
          full = send-full capacity w s1 c;
        })
