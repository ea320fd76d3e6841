-- ===== src/Conf.antt =====
-- src/confs: the services, their remotes and their sets. The documents are values of the bundled
-- JSON library, which is a parameter (`Json`), as are the functions of the C library (`Inet`).
-- A dictionary is iterated in the order in which `as_dict` lists it.
pub mod Normal
pub mod Services
pub mod Names
use magneto.Base.{
  ℕ, suc, ◌+◌, ◌-◌, ◌%◌, ◌^◌, ltb, leb, ◌&&◌, ◌||◌, Bool, true, false, not, if◌then◌else◌, List, [],
  ◌∷◌, ◌++◌, length, take, drop, Option, none, some, ℤ, pos, negsuc, codes, find, eqb_bytes, ◌>>=◌,
  ◌>>◌, guard,
}
use magneto.Model.{
  Remote, Service, Category, rapid, ping, redis, invalid, Strategy, normal, weighted, unknown,
}
use magneto.Socket.{to_unsigned}
use magneto.Rapid.{ntohs}
use magneto.ConnsMgr.{among}

-- `JsonType`: what a value is, and `operator[]`.
pub record Json (J : Type 0) : Type 0 where
  pub as_dict : J → Option (List (List ℕ × J))
  pub as_list : J → Option (List J)
  pub as_str : J → Option (List ℕ)
  pub as_int : J → Option ℤ
  pub get : J → List ℕ → J

-- `inet_addr`, where `none` is INADDR_NONE, and `atoi`.
pub record Inet : Type 0 where
  pub inet_addr : List ℕ → Option ℕ
  pub atoi : List ℕ → ℤ

-- ServiceStrategy::GetServiceStrategy and PoolProtocols::GetCategory.
abbrev pub get_service_strategy : List ℕ → Strategy
get_service_strategy s =
    if eqb_bytes s (codes "normal")
    then normal
    else if eqb_bytes s (codes "weight")
    then weighted
    else unknown

abbrev pub get_category : List ℕ → Category
get_category s =
    if eqb_bytes s (codes "rapid")
    then rapid
    else if eqb_bytes s (codes "ping")
    then ping
    else if eqb_bytes s (codes "redis")
    then redis
    else invalid

abbrev pub known : Category → Bool
known invalid = false
known _ = true

-- ConfHelper::ParseServiceTag: `<name>|<category>`.
unfoldable pub parse_service_tag : List ℕ → Option (List ℕ × Category)
unfolding find eqb_bytes
parse_service_tag tag = elim (find b'|' tag) [
  | none ↦ none
  | some i ↦
      let category = get_category (drop (suc i) tag) in
      if leb 1 i && known category then some (take i tag, category) else none
]

-- Addr::Assign: `<ip>:<port>`, as the address and the port in network order.
unfoldable pub assign_addr : Inet → List ℕ → Option (ℕ × ℕ)
unfolding find
assign_addr inet s = elim (find b':' s) [
  | none ↦ none
  | some i ↦ elim (inet.inet_addr (take i s)) [
    | none ↦ none
    | some ip ↦ some (ip, ntohs (to_unsigned 16 (inet.atoi (drop (suc i) s))))
  ]
]

abbrev pub k_num_remotes : ℕ
k_num_remotes = 1000

-- What the defaults of a remote are: fields of `ConfNormal`.
pub record Defaults : Type 0 where
  pub default_weight : ℕ
  pub default_long_conns : ℕ
  pub ctimeo_ms : ℤ
  pub rtimeo_ms : ℤ
  pub wtimeo_ms : ℤ

-- `services_`, `services_sets_`, `set_to_services_` and the set `remotes_`, which is compared by
-- address. The sets and their names are keyed by the tags of one dictionary, each there once.
pub record ConfServices : Type 0 where
  pub remotes : List Remote
  pub services : List Service
  pub services_sets : List (List ℕ × List Service)
  pub set_to_services : List (List ℕ × List (List ℕ))

abbrev pub or_else {ℓ} : {A : Type ℓ} → Option A → A → A
or_else none a = a
or_else (some b) a = b

-- `remotes_.insert`, and the limit.
unfoldable pub add_remote : Remote → List Remote → Option (List Remote)
unfolding among
add_remote r remotes =
    if among r remotes
    then some remotes
    else if ltb k_num_remotes (length (r ∷ remotes))
    then none
    else some (r ∷ remotes)

-- Whether there is a service of a name, and which.
unfoldable pub has_service : List ℕ → List Service → Bool
unfolding eqb_bytes
has_service name [] = false
has_service name (s ∷ services) = eqb_bytes s.name name || has_service name services

unfoldable pub find_service : List ℕ → List Service → Option Service
unfolding eqb_bytes
find_service name [] = none
find_service name (s ∷ services) =
    if eqb_bytes s.name name then some s else find_service name services

-- `find` in a map with a string for its key.
unfoldable pub lookup_tag {ℓ} : {A : Type ℓ} → List ℕ → List (List ℕ × A) → Option A
unfolding eqb_bytes
lookup_tag tag [] = none
lookup_tag tag ((key, a) ∷ rest) = if eqb_bytes key tag then some a else lookup_tag tag rest

-- GetService, GetServicesSet and GetServiceNames.
unfoldable pub get_service : ConfServices → List ℕ → Option Service
unfolding find_service
get_service conf service = find_service service conf.services

unfoldable pub get_services_set : ConfServices → List ℕ → Option (List Service)
unfolding lookup_tag
get_services_set conf services_set = lookup_tag services_set conf.services_sets

unfoldable pub get_service_names : ConfServices → List ℕ → Option (List (List ℕ))
unfolding lookup_tag
get_service_names conf services_set = lookup_tag services_set conf.set_to_services

module _ {J : Type 0} (json : Json J) (inet : Inet) (norm : Defaults) where
  open json use {as_dict, as_list, as_str, as_int, get}

  -- The weight that a remote asks for: a negative one is refused.
  abbrev pub weight_of : J → Option ℕ
  weight_of conf = elim (as_int (get conf (codes "weight"))) [
    | none ↦ some norm.default_weight
    | some (pos n) ↦ some n
    | some (negsuc n) ↦ none
  ]

  -- The part of BuildRemote_ that fills the remote.
  unfoldable pub parse_remote : J → Option Remote
  unfolding assign_addr
  parse_remote conf = do
    _ ← as_dict conf
    text ← as_str (get conf (codes "addr"))
    addr ← assign_addr inet text
    weight ← weight_of conf
    some (record {
      ip = addr.0;
      port = addr.1;
      weight = weight;
      long_conns = elim (as_int (get conf (codes "long_conns"))) [
        | none ↦ norm.default_long_conns
        | some n ↦ to_unsigned 64 n
      ];
      ctimeo_ms = or_else (as_int (get conf (codes "ctimeo_ms"))) norm.ctimeo_ms;
      rtimeo_ms = or_else (as_int (get conf (codes "rtimeo_ms"))) norm.rtimeo_ms;
      wtimeo_ms = or_else (as_int (get conf (codes "wtimeo_ms"))) norm.wtimeo_ms;
    })

  -- BuildRemote_.
  unfoldable pub build_remote : J → List Remote → Option (Remote × List Remote)
  unfolding parse_remote add_remote
  build_remote conf remotes = do
    r ← parse_remote conf
    remotes' ← add_remote r remotes
    some (r, remotes')

  -- The loop over the remotes of a service, with the sum of the weights, a `size_t`.
  unfoldable pub build_remotes : List J → ℕ → List Remote → Option (List Remote × ℕ × List Remote)
  unfolding build_remote
  build_remotes [] weight_all remotes = some ([], weight_all, remotes)
  build_remotes (conf ∷ confs) weight_all remotes = elim (build_remote conf remotes) [
    | none ↦ none
    | some (r, remotes1) ↦ elim (build_remotes confs ((weight_all + r.weight) % 2 ^ 64) remotes1) [
      | none ↦ none
      | some (rs, weight_all', remotes') ↦ some (r ∷ rs, weight_all', remotes')
    ]
  ]

  -- An unknown strategy is the default one.
  abbrev pub strategy_or_default : Strategy → Strategy
  strategy_or_default unknown = weighted
  strategy_or_default st = st

  abbrev pub strategy_of : J → Strategy
  strategy_of desc = elim (as_str (get desc (codes "strategy"))) [
    | none ↦ weighted
    | some s ↦ strategy_or_default (get_service_strategy s)
  ]

  abbrev pub retry_of : J → ℕ
  retry_of desc = elim (as_int (get desc (codes "retry"))) [
    | none ↦ 0
    | some (pos n) ↦ n
    | some (negsuc n) ↦ 0
  ]

  -- BuildService_.
  unfoldable pub build_service : ℕ → List ℕ → J → List Remote → Option (Service × List Remote)
  unfolding parse_service_tag build_remotes
  build_service no_service tag desc remotes = do
    parsed ← parse_service_tag tag
    _ ← as_dict desc
    confs ← as_list (get desc (codes "remotes"))
    built ← build_remotes confs 0 remotes
    some (
      record {
        no = no_service;
        name = parsed.0;
        protocol_category = parsed.1;
        service_strategy = strategy_of desc;
        remotes = built.0;
        weight_all = built.1;
        retry = retry_of desc;
      },
      built.2,
    )

  -- BuildServices_: `insert` keeps a service of the same name.
  unfoldable pub build_services :
      ℕ → List (List ℕ × J) → List Service → List Remote → Option (List Service × List Remote)
  unfolding build_service has_service
  build_services no_service [] services remotes = some (services, remotes)
  build_services no_service ((tag, desc) ∷ rest) services remotes =
      elim (build_service no_service tag desc remotes) [
        | none ↦ none
        | some (s, remotes1) ↦
            build_services (suc no_service) rest
              (if has_service s.name services then services else s ∷ services) remotes1
      ]

  -- The inner loop of BuildServicesSets_: the services of a set, and their names.
  unfoldable pub build_set : List J → List Service → Option (List Service × List (List ℕ))
  unfolding find_service
  build_set [] services = some ([], [])
  build_set (name ∷ names) services = do
    text ← as_str name
    s ← find_service text services
    rest ← build_set names services
    some (s ∷ rest.0, text ∷ rest.1)

  unfoldable pub build_services_sets :
      List (List ℕ × J)
      → List Service
      → Option (List (List ℕ × List Service) × List (List ℕ × List (List ℕ)))
  unfolding build_set
  build_services_sets [] services = some ([], [])
  build_services_sets ((tag, names) ∷ rest) services = do
    members ← as_list names
    set ← build_set members services
    sets ← build_services_sets rest services
    some ((tag, set.0) ∷ sets.0, (tag, set.1) ∷ sets.1)

  -- ConfServices::Init on the document.
  unfoldable pub init : J → Option ConfServices
  unfolding build_services build_services_sets
  init doc = do
    _ ← as_dict doc
    descs ← as_dict (get doc (codes "services"))
    built ← build_services 0 descs [] []
    names ← as_dict (get doc (codes "services_sets"))
    sets ← build_services_sets names built.0
    some (record {
      remotes = built.1;
      services = built.0;
      services_sets = sets.0;
      set_to_services = sets.1;
    })
