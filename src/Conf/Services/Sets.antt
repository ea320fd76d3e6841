-- ===== src/Conf/Services/Sets.antt =====
-- ConfServices::Init: what holds of the services and sets of a document that it takes.
use magneto.Base.{
  ℕ, suc, ◌≤◌, ◌≡◌, subst, Bool-cases, bind-some, some_inj, Option-cases, inl, inr, List, [], ◌∷◌,
  length, some, arith, codes, eqb_bytes, if◌then◌else◌,
}
use magneto.Model.{Remote, Service}
use magneto.Conf.{
  Json, Inet, Defaults, ConfServices, k_num_remotes, build_service, build_services, has_service,
  build_services_sets, find_service, build_set, init,
}
use magneto.Conf.Services.{
  All, Sound, Grown, Grown-refl, Grown-trans, All-Listed, All-if, build_service-Built,
}

abbrev pub AllSets : List Remote → List (List ℕ × List Service) → Type 0
AllSets remotes [] = Unit
AllSets remotes ((tag, set) ∷ sets) = All (Sound remotes) set × AllSets remotes sets

module _ {J : Type 0} (json : Json J) (inet : Inet) (norm : Defaults) where
  Sound-Grown : (xs ys : List Remote) (s : Service) → Grown xs ys → Sound xs s → Sound ys s
  Sound-Grown xs ys s grown (total, all) = (total, All-Listed xs ys s.remotes grown.0 all)

  All-Sound :
      (xs ys : List Remote) (ss : List Service)
      → Grown xs ys
      → All (Sound xs) ss
      → All (Sound ys) ss
  All-Sound xs ys [] grown h = tt
  All-Sound xs ys (s ∷ ss) grown (h, hs) =
      (Sound-Grown xs ys s grown h, All-Sound xs ys ss grown hs)

  build_services-Sound :
      (no_service : ℕ) (descs : List (List ℕ × J)) (services : List Service) (remotes : List Remote)
      (out : List Service × List Remote)
      → build_services json inet norm no_service descs services remotes ≡ some out
      → All (Sound remotes) services
      → All (Sound out.1) out.0 × Grown remotes out.1
  unfolding build_services
  build_services-Sound no_service [] services remotes out run sound =
      let same : (services, remotes) ≡ out = ground arith in
      subst (λ o. All (Sound o.1) o.0 × Grown remotes o.1) same (sound, Grown-refl remotes)
  build_services-Sound no_service ((tag, desc) ∷ rest) services remotes out run sound =
      elim (Option-cases (build_service json inet norm no_service tag desc remotes)) [
        | inl refused ↦ absurd (ground arith)
        | inr ((s, remotes1), built) ↦
            let (sound1, grown) =
              build_service-Built json inet norm no_service tag desc remotes (s, remotes1) built in
            let old = All-Sound remotes remotes1 services grown sound in
            let next : build_services json inet norm (suc no_service) rest
                  (if has_service s.name services then services else s ∷ services) remotes1
                ≡ some out =
              ground arith in
            let (sounds, grown1) =
              build_services-Sound (suc no_service) rest _ remotes1 out next
                (All-if (Sound remotes1) (has_service s.name services) services s old sound1) in
            (sounds, Grown-trans remotes remotes1 out.1 grown grown1)
      ]

  find_service-All :
      (remotes : List Remote) (name : List ℕ) (services : List Service) (s : Service)
      → All (Sound remotes) services
      → find_service name services ≡ some s
      → Sound remotes s
  unfolding find_service
  find_service-All remotes name [] s h run = absurd (ground arith)
  find_service-All remotes name (s0 ∷ services) s (h, hs) run =
      elim (Bool-cases (eqb_bytes s0.name name)) [
        | inl found ↦ let same : s0 ≡ s = ground arith in subst (Sound remotes) same h
        | inr on ↦ find_service-All remotes name services s hs (ground arith)
      ]

  build_set-All :
      (remotes : List Remote) (names : List J) (services : List Service)
      (set : List Service × List (List ℕ))
      → All (Sound remotes) services
      → build_set json inet norm names services ≡ some set
      → All (Sound remotes) set.0
  unfolding build_set
  build_set-All remotes [] services set h run =
      let same : ([], []) ≡ set = ground arith in subst (λ r. All (Sound remotes) r.0) same tt
  build_set-All remotes (name ∷ names) services set h run =
      let (text, _, run1) = bind-some (json.as_str name) _ set run in
      let (s, found, run2) = bind-some (find_service text services) _ set run1 in
      let (rest, built, run3) = bind-some (build_set json inet norm names services) _ set run2 in
      subst (λ r. All (Sound remotes) r.0) (some_inj run3)
        (
          find_service-All remotes text services s h found,
          build_set-All remotes names services rest h built,
        )

  build_services_sets-All :
      (remotes : List Remote) (names : List (List ℕ × J)) (services : List Service)
      (sets : List (List ℕ × List Service) × List (List ℕ × List (List ℕ)))
      → All (Sound remotes) services
      → build_services_sets json inet norm names services ≡ some sets
      → AllSets remotes sets.0
  unfolding build_services_sets
  build_services_sets-All remotes [] services sets h run =
      let same : ([], []) ≡ sets = ground arith in subst (λ r. AllSets remotes r.0) same tt
  build_services_sets-All remotes ((tag, value) ∷ rest) services sets h run =
      let (members, _, run1) = bind-some (json.as_list value) _ sets run in
      let (set, built, run2) = bind-some (build_set json inet norm members services) _ sets run1 in
      let (sets', built', run3) =
        bind-some (build_services_sets json inet norm rest services) _ sets run2 in
      subst (λ r. AllSets remotes r.0) (some_inj run3)
        (
          build_set-All remotes members services set h built,
          build_services_sets-All remotes rest services sets' h built',
        )

  -- In a configuration that is taken, the total weight of each service, and of each service of
  -- each set, is the sum of the weights of its remotes, in 64 bits, all its remotes are in the set
  -- of the configuration's remotes, and that set has no more than its limit.
  pub init-Sound :
      (doc : J) (conf : ConfServices)
      → init json inet norm doc ≡ some conf
      → All (Sound conf.remotes) conf.services
        × AllSets conf.remotes conf.services_sets
        × (length conf.remotes ≤ k_num_remotes)
  unfolding init
  init-Sound doc conf run = elim (Option-cases (json.as_dict doc)) [
    | inl refused ↦ absurd (ground arith)
    | inr (fields, run1) ↦ elim (Option-cases (json.as_dict (json.get doc (codes "services")))) [
      | inl refused ↦ absurd (ground arith)
      | inr (descs, run2) ↦ elim (Option-cases (build_services json inet norm 0 descs [] [])) [
        | inl refused ↦ absurd (ground arith)
        | inr ((services, remotes), run3) ↦
            elim (Option-cases (json.as_dict (json.get doc (codes "services_sets")))) [
              | inl refused ↦ absurd (ground arith)
              | inr (names, run4) ↦
                  elim (Option-cases (build_services_sets json inet norm names services)) [
                    | inl refused ↦ absurd (ground arith)
                    | inr (sets, run5) ↦
                        let (sound, grown) =
                          build_services-Sound 0 descs [] [] (services, remotes) run3 tt in
                        let taken : ConfServices = record {
                          remotes = remotes;
                          services = services;
                          services_sets = sets.0;
                          set_to_services = sets.1;
                        } in
                        let same : taken ≡ conf = ground arith in
                        subst
                          (λ c.
                            All (Sound c.remotes) c.services
                            × AllSets c.remotes c.services_sets
                            × (length c.remotes ≤ k_num_remotes))
                          same
                          (
                            sound,
                            build_services_sets-All remotes names services sets sound run5,
                            grown.1 (omega arith),
                          )
                  ]
            ]
      ]
    ]
  ]
