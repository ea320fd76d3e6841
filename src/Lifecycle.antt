-- ===== src/Lifecycle.antt =====
-- Start, Stop and the destructors: src/details/magneto_base.cpp, src/agents/details and
-- src/schedulers/details. A thread is told by its `pthread_t`, and 0 is none, as in the source.
-- What pthread_create answers and what a thread has left in its driver when it ends are given by
-- `Threads`. `none` is the dereference of a null pointer.
pub mod Joining
pub mod Starting
pub mod Stopping
use magneto.Base.{
  ℕ, ◌==◌, Bool, true, false, if◌then◌else◌, List, [], ◌∷◌, Option, none, some, ◌>>=◌,
}

-- The contexts in an events driver; a codec is told by its address.
pub data Context : Type 0 where
  listen : Context
  read_req : (protocol_read : Option ℕ) → Context
  session : Context
  mailbox_notify : Context

-- A thread is created or joined, a codec goes back to its pool, a context to its pool or is deleted.
pub data Effect : Type 0 where
  created joined freed_read : ℕ → Effect
  freed_ctx deleted_ctx : Context → Effect

abbrev pub Trace : Type 0
Trace = List Effect

-- pthread_create: the new thread, if there is one, and what is in the slot if there is none. And the
-- contexts of the driver when its thread has ended.
pub record Threads : Type 0 where
  pub create : Trace → Option ℕ
  pub slot : Trace → ℕ
  pub work : Trace → List Context → List Context

-- What all classes with a thread have: `tid_` and `end_`.
pub record Thread : Type 0 where
  pub tid : ℕ
  pub ending : Bool

-- `pthread_create(&tid_, ...)`, and what Start answers.
unfoldable pub create_thread : Threads → Thread → Trace → Bool × Thread × Trace
create_thread sys th t = elim (sys.create t) [
  | none ↦ (false, record th { tid = sys.slot t }, t)
  | some k ↦ (true, record th { tid = k }, created k ∷ t)
]

-- `end_=true`, and `pthread_join` if there is a thread.
unfoldable pub join_thread : Thread → Trace → Thread × Trace
join_thread th t =
    if th.tid == 0
    then (record { tid = 0; ending = true }, t)
    else (record { tid = 0; ending = true }, joined th.tid ∷ t)

-- Scheduler::Start and Stop.
unfoldable pub scheduler_start : Threads → Thread → Trace → Bool × Thread × Trace
unfolding create_thread
scheduler_start sys th t = create_thread sys th t

unfoldable pub scheduler_stop : Threads → Thread → Trace → Thread × Trace
unfolding join_thread
scheduler_stop sys th t = join_thread th t

-- The thread and the driver of an AgentSlave or AgentMaster.
pub record Agent : Type 0 where
  pub thread : Thread
  pub contexts : List Context

-- AgentSlave::Start and AgentMaster::Start.
unfoldable pub agent_start : Threads → Agent → Trace → Bool × Agent × Trace
unfolding create_thread
agent_start sys a t =
    let (ret, th, t') = create_thread sys a.thread t in (ret, record a { thread = th }, t')

-- The driver's contexts once the thread, if there is one, has ended.
abbrev pub remaining : Threads → Agent → Trace → List Context
remaining sys a t = if a.thread.tid == 0 then a.contexts else sys.work t a.contexts

-- The loop of AgentSlave::Stop over what ClearAll gives.
unfoldable pub free_context : Context → Trace → Trace
free_context (read_req (some p)) t = freed_ctx (read_req (some p)) ∷ freed_read p ∷ t
free_context ctx t = freed_ctx ctx ∷ t

unfoldable pub free_contexts : List Context → Trace → Trace
unfolding free_context
free_contexts [] t = t
free_contexts (ctx ∷ contexts) t = free_contexts contexts (free_context ctx t)

-- AgentSlave::Stop.
unfoldable pub agent_slave_stop : Threads → Agent → Trace → Agent × Trace
unfolding join_thread free_contexts
agent_slave_stop sys a t =
    let (th, t1) = join_thread a.thread t in
    (record { thread = th; contexts = [] }, free_contexts (remaining sys a t) t1)

-- The loop of AgentMaster::Stop.
unfoldable pub delete_contexts : List Context → Trace → Trace
delete_contexts [] t = t
delete_contexts (ctx ∷ contexts) t = delete_contexts contexts (deleted_ctx ctx ∷ t)

-- AgentMaster::Stop.
unfoldable pub agent_master_stop : Threads → Agent → Trace → Agent × Trace
unfolding join_thread delete_contexts
agent_master_stop sys a t =
    let (th, t1) = join_thread a.thread t in
    (record { thread = th; contexts = [] }, delete_contexts (remaining sys a t) t1)

-- The loops of Start, which end with the first object that fails, and those of Stop.
unfoldable pub start_all :
    {A : Type 0} → (A → Trace → Bool × A × Trace) → List A → Trace → Bool × List A × Trace
start_all start [] t = (true, [], t)
start_all start (x ∷ xs) t =
    let (ret, x', t1) = start x t in
    let (ret', xs', t') = start_all start xs t1 in
    if ret then (ret', x' ∷ xs', t') else (false, x' ∷ xs, t1)

unfoldable pub stop_all : {A : Type 0} → (A → Trace → A × Trace) → List A → Trace → List A × Trace
stop_all stop [] t = ([], t)
stop_all stop (x ∷ xs) t =
    let (x', t1) = stop x t in let (xs', t') = stop_all stop xs t1 in (x' ∷ xs', t')

pub record Agents : Type 0 where
  pub agent_master : Option Agent
  pub agent_slaves : List Agent

pub record Schedulers : Type 0 where
  pub schedulers_req : List Thread
  pub schedulers_routine : List Thread

module _ (sys : Threads) where
  -- Agents::Start.
  unfoldable pub agents_start : Agents → Trace → Option (Bool × Agents × Trace)
  unfolding agent_start start_all
  agents_start a t =
      let (ret, slaves, t1) = start_all (agent_start sys) a.agent_slaves t in
      if ret
      then elim a.agent_master [
        | none ↦ none
        | some master ↦
            let (ret', master', t') = agent_start sys master t1 in
            some (ret', record { agent_master = some master'; agent_slaves = slaves }, t')
      ]
      else some (false, record a { agent_slaves = slaves }, t1)

  -- Agents::Stop: the master first.
  unfoldable pub agents_stop : Agents → Trace → Option (Agents × Trace)
  unfolding agent_master_stop agent_slave_stop stop_all
  agents_stop a t = do
    master ← a.agent_master
    let (master', t1) = agent_master_stop sys master t
    let (slaves, t') = stop_all (agent_slave_stop sys) a.agent_slaves t1
    some (record { agent_master = some master'; agent_slaves = slaves }, t')

  -- Agents::~Agents: Stop, and then the destructors of the slaves and of the master.
  unfoldable pub agents_delete : Agents → Trace → Option Trace
  unfolding agents_stop
  agents_delete a t = do
    stopped ← agents_stop a t
    let (slaves, t1) = stop_all (agent_slave_stop sys) stopped.0.agent_slaves stopped.1
    master ← stopped.0.agent_master
    some (agent_master_stop sys master t1).1

  -- Schedulers::Start and Stop.
  unfoldable pub schedulers_start : Schedulers → Trace → Bool × Schedulers × Trace
  unfolding scheduler_start start_all
  schedulers_start s t =
      let (ret, req, t1) = start_all (scheduler_start sys) s.schedulers_req t in
      let (ret', routine, t') = start_all (scheduler_start sys) s.schedulers_routine t1 in
      if ret
      then (ret', record { schedulers_req = req; schedulers_routine = routine }, t')
      else (false, record s { schedulers_req = req }, t1)

  unfoldable pub schedulers_stop : Schedulers → Trace → Schedulers × Trace
  unfolding scheduler_stop stop_all
  schedulers_stop s t =
      let (req, t1) = stop_all (scheduler_stop sys) s.schedulers_req t in
      let (routine, t') = stop_all (scheduler_stop sys) s.schedulers_routine t1 in
      (record { schedulers_req = req; schedulers_routine = routine }, t')

  -- Schedulers::~Schedulers: Stop, and then the destructors.
  unfoldable pub schedulers_delete : Schedulers → Trace → Trace
  unfolding schedulers_stop
  schedulers_delete s t = let (s', t1) = schedulers_stop s t in (schedulers_stop s' t1).1

-- The members of MagnetoBase after an Init that came through.
pub record MagnetoBase : Type 0 where
  pub agents : Agents
  pub schedulers : Schedulers

module _ (sys : Threads) where
  -- MagnetoBase::Start.
  unfoldable pub start : MagnetoBase → Trace → Option (Bool × MagnetoBase × Trace)
  unfolding agents_start schedulers_start
  start b t = do
    begun ← agents_start sys b.agents t
    let (ret, agents, t1) = begun
    let (ret', schedulers, t') = schedulers_start sys b.schedulers t1
    some (
        if ret
        then (ret', record { agents = agents; schedulers = schedulers }, t')
        else (false, record b { agents = agents }, t1))

  -- MagnetoBase::Stop, once the flag `end` was set.
  unfoldable pub stop : MagnetoBase → Trace → Option (MagnetoBase × Trace)
  unfolding agents_stop schedulers_stop
  stop b t = do
    stopped ← agents_stop sys b.agents t
    let (schedulers, t') = schedulers_stop sys b.schedulers stopped.1
    some (record { agents = stopped.0; schedulers = schedulers }, t')

  -- MagnetoBase::~MagnetoBase: Stop, and then the agents and the schedulers are deleted.
  unfoldable pub delete : MagnetoBase → Trace → Option Trace
  unfolding stop agents_delete schedulers_delete
  delete b t = do
    stopped ← stop b t
    t1 ← agents_delete sys stopped.0.agents stopped.1
    some (schedulers_delete sys stopped.0.schedulers t1)
