-- ===== src/Conf/Normal/Usable.antt =====
-- ConfNormal::Init: what holds of a configuration that it takes.
use magneto.Base.{
  length-take, take, drop, leb, Bool-cases, ◌&&◌, some_inj, bind-some, refl, find, ℕ, zero, suc,
  ◌<◌, ◌≡◌, subst, Bool, true, List, [], ◌∷◌, length, Option, none, some, ℤ, pos, negsuc, codes,
  Option-cases, inl, inr, arith,
}
use magneto.Model.{Category}
use magneto.Conf.{get_category, Json, Inet, parse_service_tag, known}
use magneto.Scheduler.{worker_of}
use magneto.Agents.{agent_of}
use magneto.Conf.Normal.{
  ListenAddr, ConfNormal, positive, natural, number, listen_addr, build_listen_addrs, read_counts,
  read_times, read_listen_addrs, read_sizes, read_rest, init,
}

positive-positive : (o : Option ℤ) (n : ℕ) → positive o ≡ some n → 0 < n
positive-positive (some (pos (suc k))) n e = ground arith
positive-positive (some (pos zero)) n e = absurd (ground arith)
positive-positive (some (negsuc k)) n e = absurd (ground arith)
positive-positive none n e = absurd (ground arith)

worker_in_range : (id : ℤ) (n : ℕ) → 0 < n → (i : ℕ) × (worker_of id n ≡ some i) × (i < n)
worker_in_range id zero h = absurd (omega arith)
worker_in_range id (suc n) h = (_, refl, omega arith)

agent_in_range : (id : ℤ) (n : ℕ) → 0 < n → (i : ℕ) × (agent_of id n ≡ some i) × (i < n)
agent_in_range id zero h = absurd (omega arith)
agent_in_range id (suc n) h = (_, refl, omega arith)

find-nonempty : (c : ℕ) (s : List ℕ) (i : ℕ) → find c s ≡ some i → 0 < length s
unfolding find
find-nonempty c [] i e = absurd (ground arith)
find-nonempty c (x ∷ s) i e = omega arith

parse_service_tag-known :
    (tag name : List ℕ) (category : Category)
    → parse_service_tag tag ≡ some (name, category)
    → (known category ≡ true) × (0 < length name)
unfolding parse_service_tag
parse_service_tag-known tag name category run = elim (Option-cases (find b'|' tag)) [
  | inl missing ↦ absurd (ground arith)
  | inr (i, e) ↦ elim (Bool-cases (leb 1 i && known (get_category (drop (suc i) tag)))) [
    | inr refused ↦ absurd (ground arith)
    | inl good ↦
        let parsed : List ℕ × Category = (take i tag, get_category (drop (suc i) tag)) in
        let same : parsed ≡ (name, category) = ground arith in
        subst (λ o. (known o.1 ≡ true) × (0 < length o.0)) same
          (ground arith, grind (arith, length-take i tag, find-nonempty b'|' tag i e))
  ]
]

module _ {J : Type 0} (json : Json J) (inet : Inet) where
  -- Listening addresses have a name and a category that there is.
  abbrev pub Named : List ListenAddr → Type 0
  Named [] = Unit
  Named (a ∷ addrs) = (known a.category ≡ true) × (0 < length a.name) × Named addrs

  listen_addr-Named :
      (tag : List ℕ) (value : J) (a : ListenAddr)
      → listen_addr json inet tag value ≡ some a
      → (known a.category ≡ true) × (0 < length a.name)
  unfolding listen_addr
  listen_addr-Named tag value a run =
      let ((name, category), e, run1) = bind-some (parse_service_tag tag) _ a run in
      let (text, e1, run2) = bind-some (json.as_str value) _ a run1 in
      let (k, n) = parse_service_tag-known tag name category e in
      subst (λ o. (known o.category ≡ true) × (0 < length o.name)) (some_inj run2) (k, n)

  build_listen_addrs-Named :
      (tags : List (List ℕ × J)) (addrs : List ListenAddr)
      → build_listen_addrs json inet tags ≡ some addrs
      → Named addrs
  unfolding build_listen_addrs
  build_listen_addrs-Named [] addrs run = subst Named (some_inj run) tt
  build_listen_addrs-Named ((tag, value) ∷ rest) addrs run =
      elim (Option-cases (listen_addr json inet tag value)) [
        | inl refused ↦ absurd (ground arith)
        | inr (a, e) ↦ elim (Option-cases (build_listen_addrs json inet rest)) [
          | inl refused ↦ absurd (ground arith)
          | inr (more, f) ↦
              let same : a ∷ more ≡ addrs = ground arith in
              let (k, n) = listen_addr-Named tag value a e in
              subst Named same (k, n, build_listen_addrs-Named rest more f)
        ]
      ]

  number-positive : (doc : J) (key : List ℕ) (n : ℕ) → number json inet doc key ≡ some n → 0 < n
  number-positive doc key n e = positive-positive (json.as_int (json.get doc key)) n e

  read_counts-positive :
      (doc : J) (counts : ℕ × ℕ)
      → read_counts json inet doc ≡ some counts
      → (0 < counts.0) × (0 < counts.1)
  unfolding read_counts
  read_counts-positive doc counts run0 =
      let (num_schedulers, e0, run1) =
        bind-some (number json inet doc (codes "num_schedulers")) _ counts run0 in
      let (num_agents, e1, run2) =
        bind-some (number json inet doc (codes "num_agents")) _ counts run1 in
      subst (λ o. (0 < o.0) × (0 < o.1)) (some_inj run2)
        (number-positive doc _ num_schedulers e0, number-positive doc _ num_agents e1)

  read_rest-positive :
      (doc : J) (rest : Bool × ℕ × ℕ) → read_rest json inet doc ≡ some rest → 0 < rest.2
  unfolding read_rest
  read_rest-positive doc rest run0 =
      let (low_latency, e0, run1) =
        bind-some (json.as_int (json.get doc (codes "low_latency"))) _ rest run0 in
      let (default_long_conns, e1, run2) =
        bind-some (natural json inet doc (codes "default_long_conns")) _ rest run1 in
      let (default_weight, e2, run3) =
        bind-some (number json inet doc (codes "default_weight")) _ rest run2 in
      subst (λ o. 0 < o.2) (some_inj run3) (number-positive doc _ default_weight e2)

  read_listen_addrs-Named :
      (doc : J) (addrs : List ListenAddr)
      → read_listen_addrs json inet doc ≡ some addrs
      → Named addrs
  unfolding read_listen_addrs
  read_listen_addrs-Named doc addrs run =
      let (tags, e, run1) =
        bind-some (json.as_dict (json.get doc (codes "listen_addrs"))) _ addrs run in
      build_listen_addrs-Named tags addrs run1

  -- A choice by the remainder does not divide by zero.
  abbrev pub Usable : ConfNormal → Type 0
  Usable conf =
      ((id : ℤ)
        → ((i : ℕ) × (worker_of id conf.num_schedulers ≡ some i) × (i < conf.num_schedulers))
          × ((i : ℕ) × (agent_of id conf.num_agents ≡ some i) × (i < conf.num_agents)))
      × (0 < conf.default_weight)
      × Named conf.listen_addrs

  -- A configuration that is taken always has a scheduler for a request and an agent for a client,
  -- whatever the id: the choices by the remainder do not divide by zero. Weights default to more
  -- than zero, and the listening addresses have names and known protocols.
  pub init-Usable : (doc : J) (conf : ConfNormal) → init json inet doc ≡ some conf → Usable conf
  unfolding init
  init-Usable doc conf run0 =
      let (fields, e0, run1) = bind-some (json.as_dict doc) _ conf run0 in
      let (counts, e1, run2) = bind-some (read_counts json inet doc) _ conf run1 in
      let (times, e2, run3) = bind-some (read_times json inet doc) _ conf run2 in
      let (addrs, e3, run4) = bind-some (read_listen_addrs json inet doc) _ conf run3 in
      let (sizes, e4, run5) = bind-some (read_sizes json inet doc) _ conf run4 in
      let (rest, e5, run6) = bind-some (read_rest json inet doc) _ conf run5 in
      let (some_scheduler, some_agent) = read_counts-positive doc counts e1 in
      subst Usable (some_inj run6) (
        λ id. (worker_in_range id counts.0 some_scheduler, agent_in_range id counts.1 some_agent),
        read_rest-positive doc rest e5,
        read_listen_addrs-Named doc addrs e3,
      )
