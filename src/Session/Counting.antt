-- ===== src/Session/Counting.antt =====
-- Session::Reset: the count of the talks that are done, and what the others wait for.
use magneto.Base.{
  ℕ, suc, ◌≤◌, ◌<◌, Bool, true, false, not, ◌||◌, List, [], ◌∷◌, length, ℤ, is_pos, ◌≡◌, ◌⊎◌,
}
use magneto.Model.{Talk, is_end, is_ok, kok}
use magneto.Env.{Env, Trace}
use magneto.ConnsMgr.{ConnsMgr}
use magneto.Session.{Session}
use magneto.Session.Arming.{NotNegative}
use magneto.Session.Watching.{watched}

-- A talk that is over, or has no error and a descriptor that is valid or 0.
abbrev pub Prepared : List Talk → Type 0
Prepared [] = Unit
Prepared (talk ∷ talks) =
    ((is_end talk.status ≡ true)
      ⊎ ((is_end talk.status ≡ false) × (talk.error ≡ kok) × NotNegative talk.fd))
    × Prepared talks

-- A talk that is done: it is over or has an error.
abbrev pub is_done : Talk → Bool
is_done talk = is_end talk.status || not (is_ok talk.error)

-- A talk that waits: it is not done, and its valid descriptor was registered between two traces.
abbrev pub Waits : Trace → Trace → Talk → Type 0
Waits t t' talk =
    (is_done talk ≡ false) × (is_pos talk.fd ≡ true) × (watched talk.fd t < watched talk.fd t')

-- The count of the talks that are done, of which each other waits.
abbrev pub Tally : Trace → Trace → List Talk → ℕ → Type 0
Tally t t' [] n = n ≡ 0
Tally t t' (talk ∷ talks) n =
    ((is_done talk ≡ true) × ((m : ℕ) × (n ≡ suc m) × Tally t t' talks m))
    ⊎ (Waits t t' talk × Tally t t' talks n)

-- What a run of the loop has come to.
abbrev Counted : Trace → Trace → List Talk → Session → Type 0
Counted t t' talks s =
    Tally t t' s.talks s.num_talks_done
    × (length s.talks ≡ length talks)
    × ((f : ℤ) → watched f t ≤ watched f t')
