-- ===== src/Startup.antt =====
-- src/details/magneto_base.cpp, MagnetoBase::Init, and what it calls: Confs::Init of
-- src/confs/details, Schedulers::Init, Agents::Init, AgentMaster::Init with ListenOnAddr_, and
-- Agents::Stop, which the destructor calls. Whether the calls of the system and of single threads'
-- Init come through is given by `Machine`. `none` is the dereference of a null pointer.
pub mod Wiring
use magneto.Base.{
  ℕ, zero, suc, Bool, true, false, if◌then◌else◌, List, [], ◌∷◌, ◌++◌, length, Option, none, some,
  ℤ, is_pos, ◌>>=◌,
}
use magneto.Conf.{Json, Inet, ConfServices}
use magneto.Conf
use magneto.Conf.Normal.{ConfNormal, ListenAddr, defaults_of}
use magneto.Conf.Normal

-- Scheduler::Init of the i-th scheduler for requests and for routines, AgentSlave::Init of the i-th
-- agent, Listen and RegEvent for an address, IOBasic::Init.
pub record Machine : Type 0 where
  pub req_scheduler_init : ℕ → Bool
  pub routine_scheduler_init : ℕ → Bool
  pub agent_slave_init : ℕ → Bool
  pub listen : ListenAddr → ℤ
  pub reg_event : ℤ → Bool
  pub io_basic_init : Bool

-- The loops that make `left` objects, from the i-th on: whether all came through, and how many
-- there are.
unfoldable pub make_all : (ℕ → Bool) → ℕ → ℕ → Bool × ℕ
make_all init i zero = (true, i)
make_all init i (suc left) =
    let rest = make_all init (suc i) left in if init i then rest else (false, i)

-- The numbers of schedulers of the two kinds.
pub record Schedulers : Type 0 where
  pub schedulers_req : ℕ
  pub schedulers_routine : ℕ

-- Schedulers::Init; a routine item is told by its place.
unfoldable pub schedulers_init : Machine → ConfNormal → Bool → ℕ → Bool × Schedulers
unfolding make_all
schedulers_init m conf has_req_handler num_routine_items =
    let (ret, req) =
      if has_req_handler then make_all m.req_scheduler_init 0 conf.num_schedulers else (true, 0) in
    let (ret', routine) = make_all m.routine_scheduler_init 0 num_routine_items in
    if ret
    then (ret', record { schedulers_req = req; schedulers_routine = routine })
    else (false, record { schedulers_req = req; schedulers_routine = 0 })

-- Agents: whether agent_master_ is there, the number of agents, and the addresses listened on.
pub record Agents : Type 0 where
  pub agent_master : Bool
  pub agent_slaves : ℕ
  pub listening : List (ℤ × ListenAddr)

abbrev pub new_agents : Agents
new_agents = record { agent_master = false; agent_slaves = 0; listening = [] }

-- ListenOnAddr_: the descriptor, if it could be opened and registered.
unfoldable pub listen_on_addr : Machine → ListenAddr → Option ℤ
listen_on_addr m addr =
    let fd = m.listen addr in if is_pos fd then (if m.reg_event fd then some fd else none) else none

-- AgentMaster::Init.
unfoldable pub listen_all :
    Machine → List ListenAddr → List (ℤ × ListenAddr) → Bool × List (ℤ × ListenAddr)
unfolding listen_on_addr
listen_all m [] on = (true, on)
listen_all m (addr ∷ addrs) on = elim (listen_on_addr m addr) [
  | none ↦ (false, on)
  | some fd ↦ listen_all m addrs (on ++ (fd, addr) ∷ [])
]

-- Agents::Init.
unfoldable pub agents_init : Machine → ConfNormal → Bool × Agents
unfolding make_all listen_all
agents_init m conf =
    let (ret, slaves) = make_all m.agent_slave_init 0 conf.num_agents in
    let (ret', on) = listen_all m conf.listen_addrs [] in
    if ret
    then (ret', record { agent_master = true; agent_slaves = slaves; listening = on })
    else (false, record new_agents { agent_slaves = slaves })

-- The destructor of Agents: its Stop calls agent_master_->Stop().
unfoldable pub delete_agents : Agents → Option (Unit {0})
delete_agents agents = if agents.agent_master then some tt else none

pub record MagnetoBase : Type 0 where
  pub conf_normal : ConfNormal
  pub conf_services : ConfServices
  pub schedulers : Schedulers
  pub agents : Agents

-- The label ERROR_HANDLE, once agents_ is there: Init answers false.
abbrev pub give_up : Agents → Option (Option MagnetoBase)
give_up agents = delete_agents agents >>= λ _. some none

module _ {J : Type 0} (json : Json J) (inet : Inet) where
  -- VersionedConfServices::Load; the version that is current is the one that was loaded.
  unfoldable pub load : ConfNormal → J → Option ConfServices
  unfolding Conf.init
  load normal services_doc = Conf.init json inet (defaults_of normal) services_doc

  -- Confs::Init, on the documents of the two files.
  unfoldable pub confs_init : J → J → Option (ConfNormal × ConfServices)
  unfolding Normal.init load
  confs_init normal_doc services_doc = do
    normal ← Normal.init json inet normal_doc
    services ← load normal services_doc
    some (normal, services)

  -- MagnetoBase::Init after the configuration was taken.
  unfoldable pub init_parts :
      Machine → Bool → ℕ → ConfNormal × ConfServices → Option (Option MagnetoBase)
  unfolding schedulers_init agents_init delete_agents
  init_parts m has_req_handler num_routine_items (normal, services) =
      let (ret, schedulers) = schedulers_init m normal has_req_handler num_routine_items in
      let (ret', agents) = agents_init m normal in
      if ret
      then (if ret'
          then (if m.io_basic_init
              then some (
                  some (record {
                    conf_normal = normal;
                    conf_services = services;
                    schedulers = schedulers;
                    agents = agents;
                  }))
              else give_up agents)
          else give_up agents)
      else give_up new_agents

  -- MagnetoBase::Init: the inner `none` is the answer false.
  unfoldable pub init : Machine → Bool → ℕ → J → J → Option (Option MagnetoBase)
  unfolding confs_init init_parts
  init m has_req_handler num_routine_items normal_doc services_doc =
      elim (confs_init normal_doc services_doc) [
        | none ↦ some none
        | some confs ↦ init_parts m has_req_handler num_routine_items confs
      ]
