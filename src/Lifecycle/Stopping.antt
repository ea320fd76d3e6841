-- ===== src/Lifecycle/Stopping.antt =====
-- MagnetoBase: Stop joins every thread that Start has created, and nothing is left to do then.
use magneto.Base.{ℕ, ◌+◌, ◌≡◌, ◌≢◌, refl, sym, ap, ◌∙◌, true, [], some, arith}
use magneto.Lifecycle.{
  Trace, Threads, Thread, Agent, agent_slave_stop, agent_master_stop, stop_all, Agents, agents_stop,
  agents_delete, Schedulers, schedulers_stop, schedulers_delete, MagnetoBase, start, stop, delete,
}
use magneto.Lifecycle.Joining.{
  creations, joins, Owed, held_by_agent, AgentStopped, All, sum_held, scheduler-Startable,
  agent_slave-Startable, agent_master-Startable, stop_all-Owed, stop_all-All, stop_all-stays,
}
use magneto.Lifecycle.Starting.{
  held_master, held_agents, held_schedulers, held_base, with_master, agents_start-begun,
  start-begun, start-Owed,
}

-- Nothing is left to stop.
abbrev pub AgentsStopped : Agents → Type 0
AgentsStopped a =
    ((m : Agent) × (a.agent_master ≡ some m) × AgentStopped m) × All AgentStopped a.agent_slaves

abbrev pub ThreadStopped : Thread → Type 0
ThreadStopped th = th.tid ≡ 0

abbrev pub SchedulersStopped : Schedulers → Type 0
SchedulersStopped s = All ThreadStopped s.schedulers_req × All ThreadStopped s.schedulers_routine

module _ (sys : Threads) where
  agents_stop-some :
      (a : Agents) (t : Trace) (m : Agent)
      → a.agent_master ≡ some m
      → let master = agent_master_stop sys m t in
        let slaves = stop_all (agent_slave_stop sys) a.agent_slaves master.1 in
        agents_stop sys a t ≡ some (with_master master.0 slaves.0, slaves.1)
  unfolding agents_stop
  agents_stop-some a t m there = rw there refl

  -- Agents::Stop, when there is a master, joins what is held and stops all.
  agents_stop-ends :
      (a : Agents) (t : Trace) (m : Agent)
      → a.agent_master ≡ some m
      → (a' : Agents) × (t' : Trace) × (agents_stop sys a t ≡ some (a', t'))
        × AgentsStopped a'
        × ((k : ℕ) (n : ℕ) → k ≢ 0 → Owed k (n + held_agents k a) t → Owed k n t')
  agents_stop-ends a t m there =
      let master = agent_master_stop sys m t in
      let slaves = stop_all (agent_slave_stop sys) a.agent_slaves master.1 in
      let of_master = agent_master-Startable sys in
      let of_slaves = agent_slave-Startable sys in
      (
        with_master master.0 slaves.0,
        slaves.1,
        agents_stop-some a t m there,
        (
          (master.0, refl, of_master.stop_stops m t),
          stop_all-All of_slaves a.agent_slaves master.1,
        ),
        λ k n real h. stop_all-Owed of_slaves k a.agent_slaves master.1 n real (
            of_master.stop_pays k m t (n + sum_held (held_by_agent k) a.agent_slaves) real
              (held_first k n a m t there h)),
      )
    where
      held_first :
          (k n : ℕ) (a : Agents) (m : Agent) (t : Trace)
          → a.agent_master ≡ some m
          → Owed k (n + held_agents k a) t
          → Owed k (n + sum_held (held_by_agent k) a.agent_slaves + held_by_agent k m) t
      held_first k n a m t there h =
          let same : held_master k a.agent_master ≡ held_by_agent k m = ap (held_master k) there in
          omega arith

  -- Once stopped, Agents::Stop does nothing, and neither do the destructors.
  agents_stop-stays :
      (a : Agents) (t : Trace)
      → AgentsStopped a
      → (a' : Agents) × (agents_stop sys a t ≡ some (a', t)) × AgentsStopped a'
  agents_stop-stays a t ((m, there, stopped), all) =
      let of_slaves = agent_slave-Startable sys in
      let of_master = agent_master-Startable sys in
      let master = agent_master_stop sys m t in
      let slaves = stop_all (agent_slave_stop sys) a.agent_slaves master.1 in
      let e : (stop_all (agent_slave_stop sys) a.agent_slaves master.1).1 ≡ t =
        stop_all-stays of_slaves a.agent_slaves master.1 all ∙ of_master.stays m t stopped in
      (
        with_master master.0 slaves.0,
        agents_stop-some a t m there ∙ ap (λ u. some (with_master master.0 slaves.0, u)) e,
        (
          (master.0, refl, of_master.stop_stops m t),
          stop_all-All of_slaves a.agent_slaves master.1,
        ),
      )

  agents_delete-stays : (a : Agents) (t : Trace) → AgentsStopped a → agents_delete sys a t ≡ some t
  unfolding agents_delete
  agents_delete-stays a t stopped =
      let (a', ran, ((m, there, still), all)) = agents_stop-stays a t stopped in
      let e : (agent_master_stop sys m (stop_all (agent_slave_stop sys) a'.agent_slaves t).1).1
          ≡ t =
        (agent_master-Startable sys).stays m _ still
        ∙ stop_all-stays (agent_slave-Startable sys) a'.agent_slaves t all in
      rw ran (rw there (ap some e))

  schedulers_stop-Owed :
      (k : ℕ) (s : Schedulers) (t : Trace) (n : ℕ)
      → k ≢ 0
      → Owed k (n + held_schedulers k s) t
      → Owed k n (schedulers_stop sys s t).1
  unfolding schedulers_stop
  schedulers_stop-Owed k s t n real h =
      let laws = scheduler-Startable sys in
      stop_all-Owed laws k s.schedulers_routine _ n real
        (stop_all-Owed laws k s.schedulers_req t _ real (omega arith))

  schedulers_stop-stops :
      (s : Schedulers) (t : Trace) → SchedulersStopped (schedulers_stop sys s t).0
  unfolding schedulers_stop
  schedulers_stop-stops s t =
      let laws = scheduler-Startable sys in
      (stop_all-All laws s.schedulers_req t, stop_all-All laws s.schedulers_routine _)

  schedulers_stop-stays :
      (s : Schedulers) (t : Trace) → SchedulersStopped s → (schedulers_stop sys s t).1 ≡ t
  unfolding schedulers_stop
  schedulers_stop-stays s t (req, routine) =
      let laws = scheduler-Startable sys in
      stop_all-stays laws s.schedulers_routine _ routine
      ∙ stop_all-stays laws s.schedulers_req t req

  schedulers_delete-stays :
      (s : Schedulers) (t : Trace) → SchedulersStopped s → schedulers_delete sys s t ≡ t
  unfolding schedulers_delete
  schedulers_delete-stays s t stopped =
      schedulers_stop-stays (schedulers_stop sys s t).0 (schedulers_stop sys s t).1
        (schedulers_stop-stops s t)
      ∙ schedulers_stop-stays s t stopped

  stop-ends :
      (b : MagnetoBase) (t : Trace) (m : Agent)
      → b.agents.agent_master ≡ some m
      → (b' : MagnetoBase) × (t' : Trace) × (stop sys b t ≡ some (b', t'))
        × AgentsStopped b'.agents
        × SchedulersStopped b'.schedulers
        × ((k : ℕ) → k ≢ 0 → Owed k (held_base k b) t → Owed k 0 t')
  unfolding stop
  stop-ends b t m there =
      let (a, t1, ran, stopped, pays) = agents_stop-ends b.agents t m there in
      let s = schedulers_stop sys b.schedulers t1 in
      (
        record { agents = a; schedulers = s.0 },
        s.1,
        rw ran refl,
        stopped,
        schedulers_stop-stops b.schedulers t1,
        λ k real h.
            let rest : Owed k (0 + held_schedulers k b.schedulers) t1 =
              omega (arith, pays k (held_schedulers k b.schedulers) real (omega arith)) in
            schedulers_stop-Owed k b.schedulers t1 0 real rest,
      )

  delete-stop :
      (b b' : MagnetoBase) (t t' : Trace)
      → stop sys b t ≡ some (b', t')
      → AgentsStopped b'.agents
      → SchedulersStopped b'.schedulers
      → delete sys b t ≡ some t'
  unfolding delete
  delete-stop b b' t t' ran stopped all = rw ran (
      rw (agents_delete-stays b'.agents t' stopped)
        (ap some (schedulers_delete-stays b'.schedulers t' all)))

  delete-stays :
      (b : MagnetoBase) (t : Trace)
      → AgentsStopped b.agents
      → SchedulersStopped b.schedulers
      → delete sys b t ≡ some t
  unfolding stop
  delete-stays b t stopped all =
      let (a, ran, stopped') = agents_stop-stays b.agents t stopped in
      let s = schedulers_stop sys b.schedulers t in
      let e : stop sys b t ≡ some (record { agents = a; schedulers = s.0 }, t) = rw ran (
        ap (λ u. some (record { agents = a; schedulers = s.0 }, u))
          (schedulers_stop-stays b.schedulers t all)) in
      delete-stop b (record { agents = a; schedulers = s.0 }) t t e stopped'
        (schedulers_stop-stops b.schedulers t)

  -- When Start, on members that do not hold a thread, answers true, then Stop has joined that thread
  -- as often as it was created; deleting the object, with or without that Stop, comes to the same
  -- calls, so no thread is joined again and no codec or context freed again.
  pub stop-Joined :
      (k : ℕ) (b b' : MagnetoBase) (t' : Trace)
      → k ≢ 0
      → held_base k b ≡ 0
      → start sys b [] ≡ some (true, b', t')
      → (b'' : MagnetoBase) × (t'' : Trace) × (stop sys b' t' ≡ some (b'', t''))
        × (creations k t'' ≡ joins k t'')
        × (delete sys b' t' ≡ some t'')
        × (delete sys b'' t'' ≡ some t'')
  stop-Joined k b b' t' real idle run =
      let (t1, begun, _, _, _) = start-begun sys b b' [] t' run in
      let (_, (_, _, _, e, _)) = agents_start-begun sys b.agents b'.agents [] t1 begun in
      let there = ap (λ (a : Agents). a.agent_master) (sym e) in
      let (b2, t2, ran, stopped, all, pays) = stop-ends b' t' _ there in
      let owed = start-Owed sys k b b' [] t' 0 run idle refl in
      let paid = pays k real (omega arith) in
      (
        b2,
        t2,
        ran,
        omega arith,
        delete-stop b' b2 t' t2 ran stopped all,
        delete-stays b2 t2 stopped all,
      )
