-- ===== src/Tests/Conf.antt =====
-- A configuration with one service that has one remote.
use magneto.Base.{
  ◌≡◌, ◌≤◌, refl, true, false, if◌then◌else◌, List, [], ◌∷◌, ℕ, some, none, pos, codes, eqb_bytes,
  length,
}
use magneto.Model.{Remote, Service, rapid, redis, weighted}
use magneto.Pool.{create, set_num_long_conns, report_status}
use magneto.ConnsMgr.{
  ConnsMgr, config_remotes, report, lookup, keep_conns, add_remotes, among, assign, forget_guys,
  erase,
}
use magneto.ConnsMgr.History.{run, step, Call, reports}
use magneto.ConnsMgr.Configured.{run-Weighed, Weighed}
use magneto.Conf.{Json, Inet, Defaults, ConfServices, init, k_num_remotes}
use magneto.Conf.Services.{All, Sound}
use magneto.Conf.Services.Sets.{AllSets, init-Sound}
use magneto.Conf.Normal.{ConfNormal}
use magneto.Conf.Normal.Usable.{init-Usable, Usable}
use magneto.Conf.Normal
use magneto.Startup.{Machine, MagnetoBase}
use magneto.Startup
use magneto.Tests.World.{env, healthy}

-- The values of two documents.
pub data Value : Type 0 where
  root services cache remotes near addr sets members label numbers listens seven nothing : Value

unfoldable pub item : Value → List ℕ → Value
unfolding eqb_bytes
item root key = if eqb_bytes key (codes "services") then services else sets
item cache key = if eqb_bytes key (codes "remotes") then remotes else nothing
item near key = if eqb_bytes key (codes "addr") then addr else nothing
item numbers key = if eqb_bytes key (codes "listen_addrs") then listens else seven
item _ key = nothing

abbrev pub json : Json Value
json = record {
  as_dict = λ v. elim v [
    | root ↦ some []
    | services ↦ some ((codes "cache|redis", cache) ∷ [])
    | cache ↦ some []
    | near ↦ some []
    | sets ↦ some ((codes "all", members) ∷ [])
    | numbers ↦ some []
    | listens ↦ some ((codes "web|rapid", addr) ∷ [])
    | _ ↦ none
  ];
  as_list =
      λ v. elim v [ remotes ↦ some (near ∷ []) | members ↦ some (label ∷ label ∷ []) | _ ↦ none ];
  as_str =
      λ v. elim v [ addr ↦ some (codes "1.2.3.4:80") | label ↦ some (codes "cache") | _ ↦ none ];
  as_int = λ v. elim v [ seven ↦ some (pos 7) | _ ↦ none ];
  get = item;
}

abbrev pub inet : Inet
inet = record { inet_addr = λ s. some 9; atoi = λ s. pos 80 }

abbrev pub defaults : Defaults
defaults = record {
  default_weight = 5;
  default_long_conns = 2;
  ctimeo_ms = pos 10;
  rtimeo_ms = pos 20;
  wtimeo_ms = pos 30;
}

abbrev pub near_remote : Remote
near_remote = record {
  ip = 9;
  port = 20480;
  weight = 5;
  long_conns = 2;
  ctimeo_ms = pos 10;
  rtimeo_ms = pos 20;
  wtimeo_ms = pos 30;
}

abbrev pub cache_service : Service
cache_service = record {
  no = 0;
  name = codes "cache";
  protocol_category = redis;
  service_strategy = weighted;
  remotes = near_remote ∷ [];
  weight_all = 5;
  retry = 0;
}

abbrev pub taken : ConfServices
taken = record {
  remotes = near_remote ∷ [];
  services = cache_service ∷ [];
  services_sets = (codes "all", cache_service ∷ cache_service ∷ []) ∷ [];
  set_to_services = (codes "all", codes "cache" ∷ codes "cache" ∷ []) ∷ [];
}

pub taken_root : init json inet defaults root ≡ some taken
unfolding init item
taken_root = refl

init-Sound_example :
    All (Sound taken.remotes) taken.services
    × AllSets taken.remotes taken.services_sets
    × (length taken.remotes ≤ k_num_remotes)
init-Sound_example = init-Sound json inet defaults root taken taken_root

abbrev normal_conf : ConfNormal
normal_conf = record {
  num_schedulers = 7;
  num_agents = 7;
  times = record {
    client_keepalive_sec = 7;
    max_num_clients_keepalive = 7;
    long_conn_keepalive_sec = 7;
    ctimeo_ms = 7;
    wtimeo_ms = 7;
    rtimeo_ms = 7;
  };
  listen_addrs = record { name = codes "web"; category = rapid; addr = some (9, 20480) } ∷ [];
  sizes = record { size_scheduler_mailbox = 7; size_agent_mailbox = 7; size_stack = 7 };
  low_latency = true;
  default_long_conns = 7;
  default_weight = 7;
}

taken_numbers : Normal.init json inet numbers ≡ some normal_conf
unfolding Normal.init item
taken_numbers = refl

init-Usable_example : Usable json inet normal_conf
init-Usable_example = init-Usable json inet numbers normal_conf taken_numbers

-- The remote is reported as failed.
abbrev calls : List Call
calls = reports near_remote false ∷ []

abbrev later : ConnsMgr
later = record {
  long_conn_keepalive_sec = pos 100;
  conns =
      (
        near_remote,
        record {
          remote = near_remote;
          long_conn_keepalive_sec = pos 100;
          health_mark = 50;
          fds = [];
          expiretime_sec = λ fd. pos 0;
        },
      )
      ∷ [];
  unhealthy_guys = near_remote ∷ [];
  tmp_remotes = record { storage = 0; capacity = 0; items = [] };
}

ran : run env calls (config_remotes taken.remotes healthy, []) ≡ some (later, [])
unfolding run config_remotes step report lookup keep_conns add_remotes among assign create
    set_num_long_conns report_status forget_guys erase
ran = refl

run-Weighed_example : All (Weighed later []) taken.services
run-Weighed_example =
    run-Weighed json inet defaults root taken env calls [] healthy later [] [] taken_root (refl, tt)
      ran

-- A machine on which all comes through, and one on which the first agent fails.
abbrev machine : Machine
machine = record {
  req_scheduler_init = λ i. true;
  routine_scheduler_init = λ i. true;
  agent_slave_init = λ i. true;
  listen = λ addr. pos 4;
  reg_event = λ fd. true;
  io_basic_init = true;
}

abbrev agentless : Machine
agentless = record machine { agent_slave_init = λ i. false }

abbrev plain_remote : Remote
plain_remote = record near_remote {
  weight = 7;
  long_conns = 7;
  ctimeo_ms = pos 7;
  rtimeo_ms = pos 7;
  wtimeo_ms = pos 7;
}

abbrev plain_service : Service
plain_service = record cache_service { remotes = plain_remote ∷ []; weight_all = 7 }

abbrev plain_conf : ConfServices
plain_conf = record taken {
  remotes = plain_remote ∷ [];
  services = plain_service ∷ [];
  services_sets = (codes "all", plain_service ∷ plain_service ∷ []) ∷ [];
}

abbrev base : MagnetoBase
base = record {
  conf_normal = normal_conf;
  conf_services = plain_conf;
  schedulers = record { schedulers_req = 7; schedulers_routine = 0 };
  agents = record {
    agent_master = true;
    agent_slaves = 7;
    listening =
        (pos 4, record { name = codes "web"; category = rapid; addr = some (9, 20480) }) ∷ [];
  };
}
