-- ===== src/Tests/Notifier.antt =====
-- Two threads wake an agent.
use magneto.Base.{ℕ, ◌==◌, ◌≡◌, refl, ltb, Bool, true, false, none, some, pos, negsuc, arith}
use magneto.Notifier.{Answers, Notifier, created, clear_loop, clear_read_buf, send, notify}
use magneto.Notifier.Keeping.{Works, Signalled}
use magneto.Notifier.Waking.{none_yet, notified, notify-Signalled}

abbrev open_fds : ℕ → Bool
open_fds fd = ltb fd 6

abbrev first : Answers
first = record { opened = some (6, 7); watched = true; kept = true }

abbrev second : Answers
second = record { opened = some (8, 9); watched = true; kept = true }

abbrev woken : Notifier
woken = (notify 4 1 first (created open_fds)).1

first-Works : Works (created open_fds) first
first-Works = record { fresh = (refl, refl, refl); watches = refl }

second-Works : Works woken second
unfolding notify send
second-Works = record { fresh = (refl, refl, refl); watches = refl }

first_answer : (notify 4 1 first (created open_fds)).0 ≡ pos 0
unfolding notify send
first_answer = refl

slot_of_first : woken.slots 1 ≡ some 7
unfolding notify send
slot_of_first = refl

notify-Signalled_example : Signalled 1 (notify 4 2 second woken).1
notify-Signalled_example =
    notify-Signalled 4 open_fds 1 first (created open_fds) (notify 4 2 second woken).1 7
      (omega arith) none_yet first-Works (λ e. ground (arith, first_answer))
      (λ e. ground (arith, first_answer)) slot_of_first (notified 2 second none_yet second-Works)

-- When RegEvent fails, Notify still answers 0, and the agent watches nothing.
unwatched :
    ((notify 4 1 (record first { watched = false }) (created open_fds)).0 ≡ pos 0)
    × ((notify 4 1 (record first { watched = false }) (created open_fds)).1.registered 6 ≡ false)
unfolding notify send
unwatched = (refl, refl)

-- When the thread cannot keep the pipe, its end for reading stays registered.
unkept :
    ((notify 4 1 (record first { kept = false }) (created open_fds)).0 ≡ negsuc 1)
    × ((notify 4 1 (record first { kept = false }) (created open_fds)).1.registered 6 ≡ true)
unfolding notify send
unkept = (refl, refl)

drained : (elim (clear_read_buf 6 woken) [ none ↦ false | some s ↦ s.bytes 6 == 0 ]) ≡ true
unfolding notify send clear_read_buf clear_loop
drained = refl
