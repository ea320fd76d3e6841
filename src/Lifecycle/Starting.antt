-- ===== src/Lifecycle/Starting.antt =====
-- MagnetoBase::Start: the threads that it creates are held by its objects.
use magneto.Base.{
  ℕ, ◌+◌, ◌≡◌, subst, true, Bool-cases, Option-cases, inl, inr, List, Option, none, some, arith,
  bind-some,
}
use magneto.Lifecycle.{
  Trace, Threads, scheduler_start, Agent, agent_start, start_all, Agents, agents_start, Schedulers,
  schedulers_start, MagnetoBase, start,
}
use magneto.Lifecycle.Joining.{
  Owed, held_by, held_by_agent, sum_held, scheduler-Startable, agent_slave-Startable,
  agent_master-Startable, start_all-Owed,
}

abbrev pub held_master : ℕ → Option Agent → ℕ
held_master k none = 0
held_master k (some a) = held_by_agent k a

-- How many objects hold the thread `k`.
abbrev pub held_agents : ℕ → Agents → ℕ
held_agents k a = held_master k a.agent_master + sum_held (held_by_agent k) a.agent_slaves

abbrev pub held_schedulers : ℕ → Schedulers → ℕ
held_schedulers k s =
    sum_held (held_by k) s.schedulers_req + sum_held (held_by k) s.schedulers_routine

abbrev pub held_base : ℕ → MagnetoBase → ℕ
held_base k b = held_agents k b.agents + held_schedulers k b.schedulers

abbrev pub with_master : Agent → List Agent → Agents
with_master m xs = record { agent_master = some m; agent_slaves = xs }

module _ (sys : Threads) where
  -- What Agents::Start has done when it answers true.
  pub agents_start-begun :
      (a a' : Agents) (t t' : Trace)
      → agents_start sys a t ≡ some (true, a', t')
      → let slaves = start_all (agent_start sys) a.agent_slaves t in
        (slaves.0 ≡ true)
        × ((m : Agent) × (a.agent_master ≡ some m)
            × ((agent_start sys m slaves.2).0 ≡ true)
            × (with_master (agent_start sys m slaves.2).1 slaves.1 ≡ a')
            × ((agent_start sys m slaves.2).2 ≡ t'))
  unfolding agents_start
  agents_start-begun a a' t t' run =
      elim (Bool-cases (start_all (agent_start sys) a.agent_slaves t).0) [
        | inr failed ↦ absurd (ground arith)
        | inl begun ↦ elim (Option-cases a.agent_master) [
          | inl missing ↦ absurd (ground arith)
          | inr (m, there) ↦ (begun, (m, there, ground arith, ground arith, ground arith))
        ]
      ]

  agents_start-Owed :
      (k : ℕ) (a a' : Agents) (t t' : Trace) (n : ℕ)
      → agents_start sys a t ≡ some (true, a', t')
      → held_agents k a ≡ 0
      → Owed k n t
      → Owed k (n + held_agents k a') t'
  agents_start-Owed k a a' t t' n run fresh h =
      let slaves = start_all (agent_start sys) a.agent_slaves t in
      let (begun, (m, there, good, e, f)) = agents_start-begun a a' t t' run in
      let idle : held_by_agent k m ≡ 0 = ground arith in
      let first =
        start_all-Owed (agent_slave-Startable sys) k a.agent_slaves t n (omega arith) begun h in
      let second = (agent_master-Startable sys).start_owes k m slaves.2 _ idle good first in
      let master = agent_start sys m slaves.2 in
      subst (λ x. Owed k (n + held_agents k x) t') e
        (subst (λ u. Owed k (n + held_agents k (with_master master.1 slaves.1)) u) f
          (omega (arith, second)))

  schedulers_start-Owed :
      (k : ℕ) (s : Schedulers) (t : Trace) (n : ℕ)
      → held_schedulers k s ≡ 0
      → (schedulers_start sys s t).0 ≡ true
      → Owed k n t
      → Owed k (n + held_schedulers k (schedulers_start sys s t).1) (schedulers_start sys s t).2
  unfolding schedulers_start
  schedulers_start-Owed k s t n fresh good h =
      let req = start_all (scheduler_start sys) s.schedulers_req t in
      elim (Bool-cases req.0) [
        | inr failed ↦ absurd (ground arith)
        | inl begun ↦
            let laws = scheduler-Startable sys in
            let first = start_all-Owed laws k s.schedulers_req t n (omega arith) begun h in
            let second =
              start_all-Owed laws k s.schedulers_routine req.2 _ (omega arith) (ground arith)
                first in
            rw begun (omega (arith, second))
      ]

  -- What a start that answers true has made of the members.
  pub start-begun :
      (b b' : MagnetoBase) (t t' : Trace)
      → start sys b t ≡ some (true, b', t')
      → (t1 : Trace) × (agents_start sys b.agents t ≡ some (true, b'.agents, t1))
        × ((schedulers_start sys b.schedulers t1).0 ≡ true)
        × ((schedulers_start sys b.schedulers t1).1 ≡ b'.schedulers)
        × ((schedulers_start sys b.schedulers t1).2 ≡ t')
  unfolding start
  start-begun b b' t t' run =
      let ((ret, agents, t1), begun, run1) = bind-some (agents_start sys b.agents t) _ _ run in
      elim (Bool-cases ret) [
        | inr failed ↦ absurd (ground arith)
        | inl good ↦ (t1, ground arith, ground arith, ground arith, ground arith)
      ]

  pub start-Owed :
      (k : ℕ) (b b' : MagnetoBase) (t t' : Trace) (n : ℕ)
      → start sys b t ≡ some (true, b', t')
      → held_base k b ≡ 0
      → Owed k n t
      → Owed k (n + held_base k b') t'
  start-Owed k b b' t t' n run fresh h =
      let (t1, begun, good, e, f) = start-begun b b' t t' run in
      let first = agents_start-Owed k b.agents b'.agents t t1 n begun (omega arith) h in
      let second = schedulers_start-Owed k b.schedulers t1 _ (omega arith) good first in
      subst (λ u. Owed k (n + held_base k b') u) f
        (subst
          (λ s.
            Owed k (n + (held_agents k b'.agents + held_schedulers k s))
              (schedulers_start sys b.schedulers t1).2)
          e (omega (arith, second)))
