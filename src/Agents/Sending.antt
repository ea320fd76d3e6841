-- ===== src/Agents/Sending.antt =====
-- Agents::SendMsgWithRetry and BroadcastWithRetry: when they return, and to whom they sent.
use magneto.Base.{
  ℕ, zero, suc, ◌+◌, ◌%◌, ◌^◌, ◌≤◌, ◌<◌, ◌≡◌, refl, ap, ◌∙◌, Bool, true, false, List, [], ◌∷◌, some,
  none, ℤ, pos, arith, if◌then◌else◌, ◌==◌, leb, ltb, ◌&&◌,
}
use magneto.Socket.{to_int32, to_unsigned}
use magneto.Scheduler.{Msg}
use magneto.Agents.{
  Effect, accepted, closed, sent, Outside, agent_of, send_msg, send_msg_with_retry,
  broadcast_with_retry,
}

-- `k` refusals of an agent, on top of what was before.
abbrev pub refused : ℕ → Msg → ℕ → List Effect → List Effect
refused i m zero t = t
refused i m (suc k) t = refused i m k (sent i m false ∷ t)

-- The agent refuses `k` times in a row, and then takes the message.
abbrev pub TakesAfter : Outside → ℕ → Msg → ℕ → List Effect → Type 0
TakesAfter o i m zero t = o.takes t i m ≡ true
TakesAfter o i m (suc k) t = (o.takes t i m ≡ false) × TakesAfter o i m k (sent i m false ∷ t)

offers :
    (o : Outside) (n : ℕ) (id : ℤ) (i : ℕ) (m : Msg) (t : List Effect) (b : Bool)
    → agent_of id n ≡ some i
    → o.takes t i m ≡ b
    → send_msg o n id m t ≡ some (b, sent i m b ∷ t)
unfolding send_msg
offers o n id i m t b e takes = ground arith

-- SendMsgWithRetry returns if the agent that the id designates takes the message after some
-- number of refusals; it has then offered it that many times in vain and handed it over once.
pub send_msg_with_retry-returns :
    (o : Outside) (n : ℕ) (id : ℤ) (i : ℕ) (m : Msg) (k fuel : ℕ) (t : List Effect)
    → agent_of id n ≡ some i
    → TakesAfter o i m k t
    → k < fuel
    → send_msg_with_retry o fuel n id m t ≡ some (sent i m true ∷ refused i m k t)
unfolding send_msg_with_retry
send_msg_with_retry-returns o n id i m k zero t e takes small = absurd (omega arith)
send_msg_with_retry-returns o n id i m zero (suc fuel) t e takes small =
    ap
      (λ r. elim r [
        | none ↦ none
        | some (true, t1) ↦ some t1
        | some (false, t1) ↦ send_msg_with_retry o fuel n id m t1
      ])
      (offers o n id i m t true e takes)
send_msg_with_retry-returns o n id i m (suc k) (suc fuel) t e (no_room, takes) small =
    ap
      (λ r. elim r [
        | none ↦ none
        | some (true, t1) ↦ some t1
        | some (false, t1) ↦ send_msg_with_retry o fuel n id m t1
      ])
      (offers o n id i m t false e no_room)
    ∙ (send_msg_with_retry-returns o n id i m k fuel (sent i m false ∷ t) e takes (omega arith))

-- How often an agent took the message.
abbrev pub num_taken : ℕ → List Effect → ℕ
num_taken i [] = 0
num_taken i (accepted fd ∷ t) = num_taken i t
num_taken i (closed fd ∷ t) = num_taken i t
num_taken i (sent j m true ∷ t) = (if j == i then 1 else 0) + num_taken i t
num_taken i (sent j m false ∷ t) = num_taken i t

num_taken-refused :
    (i j : ℕ) (m : Msg) (k : ℕ) (t : List Effect) → num_taken i (refused j m k t) ≡ num_taken i t
num_taken-refused i j m zero t = refl
num_taken-refused i j m (suc k) t = num_taken-refused i j m k (sent j m false ∷ t)

-- No agent refuses a message more than `bound` times in a row.
pub record Bounded (o : Outside) (m : Msg) (bound : ℕ) : Type 0 where
  pub refusals : (i : ℕ) (t : List Effect) → (k : ℕ) × (k ≤ bound) × TakesAfter o i m k t

agent_of-index : (i n : ℕ) → i < n → n ≤ 2 ^ 31 → agent_of (to_int32 i) n ≡ some i
agent_of-index i zero small few = absurd (omega arith)
agent_of-index i (suc n) small few =
    let same : to_int32 i ≡ pos i = ground arith in
    ap (λ z. some (to_unsigned 64 z % suc n)) same ∙ ap some (grind arith)

broadcast_with_retry-taken :
    (o : Outside) (n : ℕ) (m : Msg) (bound i left : ℕ) (t : List Effect)
    → Bounded o m bound
    → i + left ≡ n
    → n ≤ 2 ^ 31
    → (t' : List Effect) × (broadcast_with_retry o (suc bound) n i left m t ≡ some t')
      × ((a : ℕ) → num_taken a t' ≡ (if leb i a && ltb a n then 1 else 0) + num_taken a t)
unfolding broadcast_with_retry
broadcast_with_retry-taken o n m bound i zero t b e few = (t, refl, λ a. ground arith)
broadcast_with_retry-taken o n m bound i (suc left) t b e few =
    let (k, small, takes) = b.refusals i t in
    let first =
      send_msg_with_retry-returns o n (to_int32 i) i m k (suc bound) t
        (agent_of-index i n (omega arith) few) takes (omega arith) in
    let t1 = sent i m true ∷ refused i m k t in
    let (t', f, taken) =
      broadcast_with_retry-taken o n m bound (suc i) left t1 b (omega arith) few in
    (
      t',
      ap
            (λ r. elim r [
              | none ↦ none
              | some t1 ↦ broadcast_with_retry o (suc bound) n (suc i) left m t1
            ])
            first
          ∙ f,
      λ a. ground (arith, taken a, num_taken-refused a i m k t),
    )

-- When there are no more than 2^31 agents, and a common bound on how often in a row an agent refuses
-- the message, BroadcastWithRetry returns, and each agent has taken the message once more.
pub broadcast_with_retry-each :
    (o : Outside) (n : ℕ) (m : Msg) (bound : ℕ) (t : List Effect)
    → Bounded o m bound
    → n ≤ 2 ^ 31
    → (t' : List Effect) × (broadcast_with_retry o (suc bound) n 0 n m t ≡ some t')
      × ((a : ℕ) → num_taken a t' ≡ (if ltb a n then 1 else 0) + num_taken a t)
broadcast_with_retry-each o n m bound t b few =
    let (t', e, taken) = broadcast_with_retry-taken o n m bound 0 n t b (omega arith) few in
    (t', e, λ a. ground (arith, taken a))
