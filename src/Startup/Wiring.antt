-- ===== src/Startup/Wiring.antt =====
-- MagnetoBase::Init: what there is when it comes through, and when it fails badly.
use magneto.Base.{ℕ, ◌<◌, ◌≡◌, List, map, some, ℤ}
use magneto.Scheduler.{worker_of}
use magneto.Agents.{agent_of}
use magneto.Conf.Normal.{ListenAddr, defaults_of}
use magneto.Conf.Normal
use magneto.Startup.{Agents, MagnetoBase}

abbrev addresses : List (ℤ × ListenAddr) → List ListenAddr
addresses on = map (λ a. a.1) on

-- A scheduler for each request, an agent for each client, and every address listened on.
abbrev pub Wired : MagnetoBase → Type 0
Wired b =
    ((id : ℤ)
      → ((i : ℕ) × (worker_of id b.schedulers.schedulers_req ≡ some i)
          × (i < b.schedulers.schedulers_req))
        × ((i : ℕ) × (agent_of id b.agents.agent_slaves ≡ some i) × (i < b.agents.agent_slaves)))
    × (addresses b.agents.listening ≡ b.conf_normal.listen_addrs)
