-- ===== src/Conf/Names.antt =====
-- ConfServices: the three look-ups by name agree with one another.
use magneto.Base.{
  ℕ, ◌≡◌, refl, ap, subst, Bool-cases, bind-some, some_inj, inl, inr, List, [], ◌∷◌, map, Option,
  none, some, arith, codes, eqb_bytes, eqb_bytes_eq,
}
use magneto.Model.{Service}
use magneto.Conf.{
  Json, Inet, Defaults, ConfServices, find_service, build_services, build_set, build_services_sets,
  init, lookup_tag, get_services_set, get_service_names,
}
use magneto.Conf.Services.{All}

abbrev pub service_names : List Service → List (List ℕ)
service_names services = map (λ s. s.name) services

-- A service of a set is the one that its name finds.
abbrev pub Found : List Service → Service → Type 0
Found services s = find_service s.name services ≡ some s

find_service-name :
    (name : List ℕ) (services : List Service) (s : Service)
    → find_service name services ≡ some s
    → s.name ≡ name
unfolding find_service
find_service-name name [] s run = absurd (ground arith)
find_service-name name (s0 ∷ services) s run = elim (Bool-cases (eqb_bytes s0.name name)) [
  | inl found ↦
      let same : s0 ≡ s = ground arith in
      subst (λ (x : Service). x.name ≡ name) same (eqb_bytes_eq s0.name name found)
  | inr on ↦ find_service-name name services s (ground arith)
]

-- What GetServicesSet and GetServiceNames give for one tag.
abbrev pub Agree : List Service → Option (List Service) → Option (List (List ℕ)) → Type 0
Agree services none names = names ≡ none
Agree services (some set) names = (names ≡ some (service_names set)) × All (Found services) set

module _ {J : Type 0} (json : Json J) (inet : Inet) (norm : Defaults) where
  build_set-names :
      (names : List J) (services : List Service) (set : List Service × List (List ℕ))
      → build_set json inet norm names services ≡ some set
      → (set.1 ≡ service_names set.0) × All (Found services) set.0
  unfolding build_set
  build_set-names [] services set run =
      let same : ([], []) ≡ set = ground arith in
      subst (λ r. (r.1 ≡ service_names r.0) × All (Found services) r.0) same (refl, tt)
  build_set-names (name ∷ names) services set run =
      let (text, _, run1) = bind-some (json.as_str name) _ set run in
      let (s, found, run2) = bind-some (find_service text services) _ set run1 in
      let (rest, built, run3) = bind-some (build_set json inet norm names services) _ set run2 in
      let named = find_service-name text services s found in
      let (e, all) = build_set-names names services rest built in
      subst (λ r. (r.1 ≡ service_names r.0) × All (Found services) r.0) (some_inj run3)
        (cc, (rw named found, all))

  build_services_sets-Agree :
      (names : List (List ℕ × J)) (services : List Service)
      (sets : List (List ℕ × List Service) × List (List ℕ × List (List ℕ))) (tag : List ℕ)
      → build_services_sets json inet norm names services ≡ some sets
      → Agree services (lookup_tag tag sets.0) (lookup_tag tag sets.1)
  unfolding build_services_sets lookup_tag
  build_services_sets-Agree [] services sets tag run =
      let same : ([], []) ≡ sets = ground arith in
      subst (λ r. Agree services (lookup_tag tag r.0) (lookup_tag tag r.1)) same refl
  build_services_sets-Agree ((key, value) ∷ rest) services sets tag run =
      let (members, _, run1) = bind-some (json.as_list value) _ sets run in
      let (set, built, run2) = bind-some (build_set json inet norm members services) _ sets run1 in
      let (sets', built', run3) =
        bind-some (build_services_sets json inet norm rest services) _ sets run2 in
      let (e, all) = build_set-names members services set built in
      subst (λ r. Agree services (lookup_tag tag r.0) (lookup_tag tag r.1)) (some_inj run3)
        (elim (Bool-cases (eqb_bytes key tag)) [
          | inl here ↦ rw here (ap some e, all)
          | inr on ↦ rw on (build_services_sets-Agree rest services sets' tag built')
        ])

  -- In a configuration that is taken, GetServiceNames knows the same sets as GetServicesSet, and
  -- gives the names of the set's services in their order, with each of which GetService finds just
  -- that service.
  pub init-Agree :
      (doc : J) (conf : ConfServices) (services_set : List ℕ)
      → init json inet norm doc ≡ some conf
      → Agree conf.services
          (get_services_set conf services_set)
          (get_service_names conf services_set)
  unfolding init get_services_set get_service_names
  init-Agree doc conf services_set run =
      let (_, _, run1) = bind-some (json.as_dict doc) _ conf run in
      let (descs, _, run2) =
        bind-some (json.as_dict (json.get doc (codes "services"))) _ conf run1 in
      let (built, _, run3) = bind-some (build_services json inet norm 0 descs [] []) _ conf run2 in
      let (names, _, run4) =
        bind-some (json.as_dict (json.get doc (codes "services_sets"))) _ conf run3 in
      let (sets, taken, run5) =
        bind-some (build_services_sets json inet norm names built.0) _ conf run4 in
      subst
        (λ (c : ConfServices).
          Agree c.services (get_services_set c services_set) (get_service_names c services_set))
        (some_inj run5) (build_services_sets-Agree names built.0 sets services_set taken)
