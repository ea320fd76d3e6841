-- ===== src/Conf/Normal.antt =====
-- src/confs/conf_normal.h and src/confs/details/conf_normal.cpp: ConfNormal::Init, on the document
-- that the JSON library has read.
pub mod Usable
use magneto.Base.{
  length-take, take, drop, leb, Bool-cases, ◌&&◌, some_inj, bind-some, refl, find, ℕ, zero, suc,
  ◌<◌, ◌≡◌, subst, Bool, true, not, List, [], ◌∷◌, length, Option, none, some, ℤ, pos, negsuc,
  eqb_ℤ, codes, ◌>>=◌, Option-cases, inl, inr, arith,
}
use magneto.Model.{Category}
use magneto.Conf.{get_category, Json, Inet, Defaults, parse_service_tag, assign_addr, known}
use magneto.Scheduler.{worker_of}
use magneto.Agents.{agent_of}

-- ListenAddr; the address is `none` when `Assign` has refused the text, which nobody asks.
pub record ListenAddr : Type 0 where
  pub name : List ℕ
  pub category : Category
  pub addr : Option (ℕ × ℕ)

-- The fields of ConfNormal, the times and the sizes in records of their own.
pub record Times : Type 0 where
  pub client_keepalive_sec : ℕ
  pub max_num_clients_keepalive : ℕ
  pub long_conn_keepalive_sec : ℕ
  pub ctimeo_ms : ℕ
  pub wtimeo_ms : ℕ
  pub rtimeo_ms : ℕ

pub record Sizes : Type 0 where
  pub size_scheduler_mailbox : ℕ
  pub size_agent_mailbox : ℕ
  pub size_stack : ℕ

pub record ConfNormal : Type 0 where
  pub num_schedulers : ℕ
  pub num_agents : ℕ
  pub times : Times
  pub listen_addrs : List ListenAddr
  pub sizes : Sizes
  pub low_latency : Bool
  pub default_long_conns : ℕ
  pub default_weight : ℕ

-- The defaults that ConfServices takes from it.
abbrev pub defaults_of : ConfNormal → Defaults
defaults_of c = record {
  default_weight = c.default_weight;
  default_long_conns = c.default_long_conns;
  ctimeo_ms = pos c.times.ctimeo_ms;
  rtimeo_ms = pos c.times.rtimeo_ms;
  wtimeo_ms = pos c.times.wtimeo_ms;
}

-- `!IsInt() || AsInt() < 0`, and the same with `<= 0`. An integer of a document has 64 bits, so
-- one that is not negative is kept by the conversion to a `size_t` or a `time_t`.
abbrev pub not_negative : Option ℤ → Option ℕ
not_negative (some (pos n)) = some n
not_negative (some (negsuc n)) = none
not_negative none = none

abbrev pub positive : Option ℤ → Option ℕ
positive (some (pos (suc n))) = some (suc n)
positive (some (pos zero)) = none
positive (some (negsuc n)) = none
positive none = none

module _ {J : Type 0} (json : Json J) (inet : Inet) where
  abbrev pub natural : J → List ℕ → Option ℕ
  natural doc key = not_negative (json.as_int (json.get doc key))

  abbrev pub number : J → List ℕ → Option ℕ
  number doc key = positive (json.as_int (json.get doc key))

  -- The loop over the listening addresses.
  unfoldable pub listen_addr : List ℕ → J → Option ListenAddr
  unfolding parse_service_tag assign_addr
  listen_addr tag value = do
    parsed ← parse_service_tag tag
    text ← json.as_str value
    some (record { name = parsed.0; category = parsed.1; addr = assign_addr inet text })

  unfoldable pub build_listen_addrs : List (List ℕ × J) → Option (List ListenAddr)
  unfolding listen_addr
  build_listen_addrs [] = some []
  build_listen_addrs ((tag, value) ∷ rest) = elim (listen_addr tag value) [
    | none ↦ none
    | some addr ↦ elim (build_listen_addrs rest) [ none ↦ none | some addrs ↦ some (addr ∷ addrs) ]
  ]

  -- Init reads the values in this order, in five parts.
  unfoldable pub read_counts : J → Option (ℕ × ℕ)
  read_counts doc = do
    num_schedulers ← number doc (codes "num_schedulers")
    num_agents ← number doc (codes "num_agents")
    some (num_schedulers, num_agents)

  unfoldable pub read_times : J → Option Times
  read_times doc = do
    client_keepalive_sec ← natural doc (codes "client_keepalive_sec")
    max_num_clients_keepalive ← natural doc (codes "max_num_clients_keepalive")
    long_conn_keepalive_sec ← natural doc (codes "long_conn_keepalive_sec")
    ctimeo_ms ← natural doc (codes "ctimeo_ms")
    wtimeo_ms ← natural doc (codes "wtimeo_ms")
    rtimeo_ms ← natural doc (codes "rtimeo_ms")
    some (record {
      client_keepalive_sec = client_keepalive_sec;
      max_num_clients_keepalive = max_num_clients_keepalive;
      long_conn_keepalive_sec = long_conn_keepalive_sec;
      ctimeo_ms = ctimeo_ms;
      wtimeo_ms = wtimeo_ms;
      rtimeo_ms = rtimeo_ms;
    })

  unfoldable pub read_listen_addrs : J → Option (List ListenAddr)
  unfolding build_listen_addrs
  read_listen_addrs doc = do
    tags ← json.as_dict (json.get doc (codes "listen_addrs"))
    build_listen_addrs tags

  unfoldable pub read_sizes : J → Option Sizes
  read_sizes doc = do
    size_scheduler_mailbox ← number doc (codes "size_scheduler_mailbox")
    size_agent_mailbox ← number doc (codes "size_agent_mailbox")
    size_stack ← number doc (codes "size_stack")
    some (record {
      size_scheduler_mailbox = size_scheduler_mailbox;
      size_agent_mailbox = size_agent_mailbox;
      size_stack = size_stack;
    })

  unfoldable pub read_rest : J → Option (Bool × ℕ × ℕ)
  read_rest doc = do
    low_latency ← json.as_int (json.get doc (codes "low_latency"))
    default_long_conns ← natural doc (codes "default_long_conns")
    default_weight ← number doc (codes "default_weight")
    some (not (eqb_ℤ low_latency (pos 0)), default_long_conns, default_weight)

  unfoldable pub init : J → Option ConfNormal
  unfolding read_counts read_times read_listen_addrs read_sizes read_rest
  init doc = do
    _ ← json.as_dict doc
    counts ← read_counts doc
    times ← read_times doc
    addrs ← read_listen_addrs doc
    sizes ← read_sizes doc
    rest ← read_rest doc
    some (record {
      num_schedulers = counts.0;
      num_agents = counts.1;
      times = times;
      listen_addrs = addrs;
      sizes = sizes;
      low_latency = rest.0;
      default_long_conns = rest.1;
      default_weight = rest.2;
    })
