-- ===== src/Tests/Coroutine.antt =====
-- A procedure whose talks are answered before it has given control up.
use magneto.Base.{ℕ, ◌≡◌, refl, [], ◌∷◌}
use magneto.Coroutine.{
  suspended, session, new_req, System, initial, switch_to, send_talks, swap_out, send_back, arrive,
  arrives, starts, sends, swaps, answers, Reach, begin, next,
}
use magneto.Coroutine.Safety.{Described, FrontWaits, Reach-Safe}

abbrev busy : System
busy = send_talks 7 (switch_to 7 new_req [] (arrive initial))

abbrev answered : System
answered = swap_out 7 (send_back [] 7 [] busy)

answered-reached : Reach answered
unfolding arrive switch_to send_talks send_back swap_out
answered-reached =
    next
      (next
        (next (next (next begin (arrives initial)) (starts (arrive initial) 7 [] refl refl refl))
          (sends (switch_to 7 new_req [] (arrive initial)) 7 refl refl))
        (answers busy [] 7 [] refl))
      (swaps (send_back [] 7 [] busy) 7 refl refl)

Reach-Safe_example :
    FrontWaits answered answered.current answered.queue
    × ((p : ℕ) → Described p answered (answered.status p))
Reach-Safe_example = Reach-Safe answered-reached

-- The procedure is at the front, and waits.
at_front : (answered.queue ≡ session 7 ∷ []) × (answered.status 7 ≡ suspended)
unfolding arrive switch_to send_talks send_back swap_out
at_front = (refl, refl)
