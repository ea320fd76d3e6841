-- ===== src/Conf/Services.antt =====
-- ConfServices::BuildService_: what holds of a service that it takes.
pub mod Sets
use magneto.Base.{
  ℕ, suc, ◌+◌, ◌%◌, ◌^◌, ◌≤◌, ◌<◌, ◌≡◌, subst, Bool, true, false, Bool-cases, Option-cases, inl,
  inr, List, [], ◌∷◌, length, some, arith, codes, eqb_bytes, if◌then◌else◌,
}
use magneto.Model.{Remote, Service}
use magneto.ConnsMgr.{among, weights}
use magneto.ConnsMgr.Weights.{sum}
use magneto.Conf.{
  Json, Inet, Defaults, ConfServices, k_num_remotes, add_remote, parse_remote, build_remote,
  build_remotes, build_service, build_services, has_service, build_services_sets, parse_service_tag,
  strategy_of, retry_of, find_service, build_set, init,
}

abbrev pub All {ℓ κ} : {A : Type ℓ} → (A → Type κ) → List A → Type κ
All P [] = Unit
All P (x ∷ xs) = P x × All P xs

abbrev pub Listed : List Remote → Remote → Type 0
Listed remotes r = among r remotes ≡ true

-- `weight_all` is the sum of the weights, and all remotes are in the set of the configuration.
abbrev pub Sound : List Remote → Service → Type 0
Sound remotes s = (s.weight_all ≡ sum (weights s.remotes) % 2 ^ 64) × All (Listed remotes) s.remotes

-- A set of remotes that has grown, within the limit.
abbrev pub Grown : List Remote → List Remote → Type 0
Grown remotes remotes' =
    ((r : Remote) → among r remotes ≡ true → among r remotes' ≡ true)
    × (length remotes ≤ k_num_remotes → length remotes' ≤ k_num_remotes)

among_self : (r : Remote) (rs : List Remote) → among r (r ∷ rs) ≡ true
unfolding among
among_self r rs = ground arith

pub Grown-refl : (remotes : List Remote) → Grown remotes remotes
Grown-refl remotes = (λ r h. h, λ h. h)

pub Grown-trans : (xs ys zs : List Remote) → Grown xs ys → Grown ys zs → Grown xs zs
Grown-trans xs ys zs (f, m) (g, n) = (λ r h. g r (f r h), λ h. n (m h))

Grown-cons :
    (r : Remote) (remotes : List Remote)
    → length (r ∷ remotes) ≤ k_num_remotes
    → Grown remotes (r ∷ remotes)
unfolding among
Grown-cons r remotes fits = (λ s h. ground arith, λ h. fits)

add_remote-Grown :
    (r : Remote) (remotes remotes' : List Remote)
    → add_remote r remotes ≡ some remotes'
    → Listed remotes' r × Grown remotes remotes'
unfolding add_remote
add_remote-Grown r remotes remotes' run = elim (Bool-cases (among r remotes)) [
  | inl old ↦
      let same : remotes ≡ remotes' = ground arith in
      subst (λ out. Listed out r × Grown remotes out) same (old, Grown-refl remotes)
  | inr new ↦
      let same : r ∷ remotes ≡ remotes' = ground arith in
      let fits : length (r ∷ remotes) ≤ k_num_remotes = ground arith in
      subst (λ out. Listed out r × Grown remotes out) same
        (among_self r remotes, Grown-cons r remotes fits)
]

pub All-Listed :
    (xs ys : List Remote) (rs : List Remote)
    → ((r : Remote) → among r xs ≡ true → among r ys ≡ true)
    → All (Listed xs) rs
    → All (Listed ys) rs
All-Listed xs ys [] f h = tt
All-Listed xs ys (r ∷ rs) f (h, hs) = (f r h, All-Listed xs ys rs f hs)

pub All-if {ℓ κ} :
    {A : Type ℓ} (P : A → Type κ) (b : Bool) (xs : List A) (x : A)
    → All P xs
    → P x
    → All P (if b then xs else x ∷ xs)
All-if P true xs x hs h = hs
All-if P false xs x hs h = (h, hs)

module _ {J : Type 0} (json : Json J) (inet : Inet) (norm : Defaults) where
  build_remote-Grown :
      (conf : J) (remotes : List Remote) (r : Remote) (remotes' : List Remote)
      → build_remote json inet norm conf remotes ≡ some (r, remotes')
      → Listed remotes' r × Grown remotes remotes'
  unfolding build_remote
  build_remote-Grown conf remotes r remotes' run =
      elim (Option-cases (parse_remote json inet norm conf)) [
        | inl refused ↦ absurd (ground arith)
        | inr (q, parsed) ↦ elim (Option-cases (add_remote q remotes)) [
          | inl full ↦ absurd (ground arith)
          | inr (out, added) ↦
              let (listed, grown) = add_remote-Grown q remotes out added in
              let same : q ≡ r = ground arith in
              let same' : out ≡ remotes' = ground arith in rw (← same, ← same') (listed, grown)
        ]
      ]

  abbrev BuiltRemotes : ℕ → List Remote → List Remote × ℕ × List Remote → Type 0
  BuiltRemotes n remotes (rs, weight_all, remotes') =
      (weight_all ≡ (n + sum (weights rs)) % 2 ^ 64)
      × All (Listed remotes') rs
      × Grown remotes remotes'

  build_remotes-Built :
      (confs : List J) (n : ℕ) (remotes : List Remote) (out : List Remote × ℕ × List Remote)
      → build_remotes json inet norm confs n remotes ≡ some out
      → n < 2 ^ 64
      → BuiltRemotes n remotes out
  unfolding build_remotes weights
  build_remotes-Built [] n remotes out run small =
      let same : ([], n, remotes) ≡ out = ground arith in
      subst (BuiltRemotes n remotes) same (omega arith, tt, Grown-refl remotes)
  build_remotes-Built (conf ∷ confs) n remotes out run small =
      elim (Option-cases (build_remote json inet norm conf remotes)) [
        | inl refused ↦ absurd (ground arith)
        | inr ((r, remotes1), built) ↦
            elim (Option-cases
              (build_remotes json inet norm confs ((n + r.weight) % 2 ^ 64) remotes1)) [
                | inl refused ↦ absurd (ground arith)
                | inr ((rs, total, remotes2), later) ↦
                    let (listed, grown) = build_remote-Grown conf remotes r remotes1 built in
                    let (sum_of, all, grown1) =
                      build_remotes-Built confs ((n + r.weight) % 2 ^ 64) remotes1
                        (rs, total, remotes2) later (omega arith) in
                    let same : (r ∷ rs, total, remotes2) ≡ out = ground arith in
                    subst (BuiltRemotes n remotes) same (
                      omega arith,
                      (grown1.0 r listed, all),
                      Grown-trans remotes remotes1 remotes2 grown grown1,
                    )
              ]
      ]

  abbrev pub BuiltService : List Remote → Service × List Remote → Type 0
  BuiltService remotes (s, remotes') = Sound remotes' s × Grown remotes remotes'

  pub build_service-Built :
      (no_service : ℕ) (tag : List ℕ) (desc : J) (remotes : List Remote)
      (out : Service × List Remote)
      → build_service json inet norm no_service tag desc remotes ≡ some out
      → BuiltService remotes out
  unfolding build_service
  build_service-Built no_service tag desc remotes out run =
      elim (Option-cases (parse_service_tag tag)) [
        | inl refused ↦ absurd (ground arith)
        | inr (parsed, run1) ↦ elim (Option-cases (json.as_dict desc)) [
          | inl refused ↦ absurd (ground arith)
          | inr (fields, run2) ↦
              elim (Option-cases (json.as_list (json.get desc (codes "remotes")))) [
                | inl refused ↦ absurd (ground arith)
                | inr (confs, run3) ↦
                    elim (Option-cases (build_remotes json inet norm confs 0 remotes)) [
                      | inl refused ↦ absurd (ground arith)
                      | inr ((rs, total, remotes'), run4) ↦
                          let (sum_of, all, grown) =
                            build_remotes-Built confs 0 remotes (rs, total, remotes') run4
                              (omega arith) in
                          let s : Service = record {
                            no = no_service;
                            name = parsed.0;
                            protocol_category = parsed.1;
                            service_strategy = strategy_of json inet norm desc;
                            remotes = rs;
                            weight_all = total;
                            retry = retry_of json inet norm desc;
                          } in
                          let same : (s, remotes') ≡ out = ground arith in
                          subst (BuiltService remotes) same ((omega arith, all), grown)
                    ]
              ]
        ]
      ]
