-- ===== src/ConnsMgr/Configured.antt =====
-- A connection manager that was configured, and the services of the same configuration.
use magneto.Base.{
  ap, ltb, ℕ, ◌*◌, ◌%◌, ◌^◌, ◌≡◌, ◌⊎◌, refl, sym, subst, ◌∙◌, Bool, true, false, Bool-cases,
  Option-cases, inl, inr, List, [], ◌∷◌, Option, none, some, arith, if◌then◌else◌, ℤ,
}
use magneto.Model.{Remote, Service, eq_remote}
use magneto.Env.{Env, Trace}
use magneto.Pool.{PoolConns, put}
use magneto.ConnsMgr.{
  ConnsMgr, Conns, lookup, assign, among, not_failed, marked_weights, get_fd, get_fd_of, free_fd,
  report, add_remotes, config_remotes,
}
use magneto.ConnsMgr.InSync.{lookup-assign, lookup-insert, lookup-keep_conns}
use magneto.ConnsMgr.History.{Call, gets, frees, reports, configures, step, run, get_fd-by}
use magneto.Conf.{Json, Inet, Defaults, ConfServices, init}
use magneto.Conf.Services.{All, Listed, Sound}
use magneto.Conf.Services.Sets.{init-Sound}

abbrev pub Pooled : Conns → Remote → Type 0
Pooled m r = (p : PoolConns) × (lookup r m ≡ some p)

put_pool :
    (r s : Remote) (p : PoolConns) (m m' : Conns)
    → lookup s m' ≡ (if eq_remote r s then some p else lookup s m)
    → Pooled m s ⊎ (eq_remote r s ≡ true)
    → Pooled m' s
put_pool r s p m m' e h = elim (Bool-cases (eq_remote r s)) [
  | inl same ↦ (p, ground arith)
  | inr other ↦ elim h [ inl (q, found) ↦ (q, ground arith) | inr same ↦ absurd (ground arith) ]
]

-- After a round of the loop of ConfigRemotes over `r`, a remote that had a pool, or is among
-- `r` and the rest, has a pool or is among the rest.
one_round :
    (r s : Remote) (rs : List Remote) (p : PoolConns) (m m' : Conns)
    → lookup s m' ≡ (if eq_remote r s then some p else lookup s m)
    → Pooled m s ⊎ (among s (r ∷ rs) ≡ true)
    → Pooled m' s ⊎ (among s rs ≡ true)
unfolding among
one_round r s rs p m m' e (inl pooled) = inl (put_pool r s p m m' e (inl pooled))
one_round r s rs p m m' e (inr listed) = elim (Bool-cases (among s rs)) [
  | inl later ↦ inr later
  | inr not_later ↦ inl (put_pool r s p m m' e (inr (ground arith)))
]

add_remotes-Pooled :
    (keepalive : ℤ) (rs : List Remote) (m : Conns) (s : Remote)
    → Pooled m s ⊎ (among s rs ≡ true)
    → Pooled (add_remotes keepalive rs m) s
unfolding add_remotes among
add_remotes-Pooled keepalive [] m s (inl h) = h
add_remotes-Pooled keepalive [] m s (inr h) = absurd (ground arith)
add_remotes-Pooled keepalive (r ∷ rs) m s h = elim (Option-cases (lookup r m)) [
  | inl missing ↦ rw missing (
      add_remotes-Pooled keepalive rs _ s
        (one_round r s rs _ m _ (lookup-insert r s _ m missing) h))
  | inr (p, found) ↦ rw found (
      add_remotes-Pooled keepalive rs _ s
        (one_round r s rs _ m _ (lookup-assign r s _ p m found) h))
]

-- Every remote of a configuration has a pool.
abbrev pub Serves : List Remote → ConnsMgr → Type 0
Serves rs c = (r : Remote) → among r rs ≡ true → Pooled c.conns r

config_remotes-Serves : (rs : List Remote) (c : ConnsMgr) → Serves rs (config_remotes rs c)
unfolding config_remotes
config_remotes-Serves rs c r h =
    let (p, found) = add_remotes-Pooled c.long_conn_keepalive_sec rs c.conns r (inr h) in
    (p, lookup-keep_conns rs r (add_remotes c.long_conn_keepalive_sec rs c.conns) ∙ ground arith)

get_fd_of-Serves :
    (env : Env) (t : Trace) (r : Remote) (rs : List Remote) (c : ConnsMgr)
    → Serves rs c
    → Serves rs (get_fd_of env t r c).1
unfolding get_fd_of
get_fd_of-Serves env t r rs c h s listed = elim (Option-cases (lookup r c.conns)) [
  | inl missing ↦
      rw (missing, get_fd_of)
        (put_pool r s _ c.conns _ (lookup-insert r s _ c.conns missing) (inl (h s listed)))
  | inr (p, found) ↦
      rw (found, get_fd_of)
        (put_pool r s _ c.conns _ (lookup-assign r s _ p c.conns found) (inl (h s listed)))
]

report-Serves :
    (r : Remote) (status : Bool) (rs : List Remote) (c : ConnsMgr)
    → Serves rs c
    → Serves rs (report r status c)
unfolding report
report-Serves r status rs c h s listed = elim (Option-cases (lookup r c.conns)) [
  | inl missing ↦ rw (missing, report) (h s listed)
  | inr (p, found) ↦
      rw (found, report)
        (put_pool r s _ c.conns _ (lookup-assign r s _ p c.conns found) (inl (h s listed)))
]

free_fd-Serves :
    (env : Env) (t : Trace) (r : Remote) (fd : ℤ) (rs : List Remote) (c c' : ConnsMgr) (t' : Trace)
    → Serves rs c
    → free_fd env t r fd c ≡ some (c', t')
    → Serves rs c'
unfolding free_fd
free_fd-Serves env t r fd rs c c' t' h run = elim (Option-cases (lookup r c.conns)) [
  | inl missing ↦ let same : c ≡ c' = ground arith in subst (Serves rs) same h
  | inr (p, found) ↦ elim (Bool-cases (ltb 0 p.remote.long_conns)) [
    | inr unkept ↦ let same : c ≡ c' = ground arith in subst (Serves rs) same h
    | inl kept ↦ elim (Option-cases (put env t fd p)) [
      | inl fault ↦ absurd (ground arith)
      | inr ((p', t''), done) ↦
          let c1 : ConnsMgr = record c { conns = assign r p' c.conns } in
          let same : c1 ≡ c' = ground arith in
          let serves : Serves rs c1 = λ s listed.
            put_pool r s p' c.conns _ (lookup-assign r s p' p c.conns found) (inl (h s listed)) in
          subst (Serves rs) same serves
    ]
  ]
]

-- A call of the agent that does not configure.
abbrev pub keeps_remotes : Call → Bool
keeps_remotes (configures rs) = false
keeps_remotes (gets s fail) = true
keeps_remotes (frees r fd) = true
keeps_remotes (reports r status) = true

step-Serves :
    (env : Env) (call : Call) (rs : List Remote) (c : ConnsMgr) (t : Trace) (c' : ConnsMgr)
    (t' : Trace)
    → keeps_remotes call ≡ true
    → Serves rs c
    → step env call (c, t) ≡ some (c', t')
    → Serves rs c'
unfolding step
step-Serves env (configures rs') rs c t c' t' k h done = absurd (ground arith)
step-Serves env (frees r fd) rs c t c' t' k h done = free_fd-Serves env t r fd rs c c' t' h done
step-Serves env (reports r status) rs c t c' t' k h done =
    let same : report r status c ≡ c' = cc in subst (Serves rs) same (report-Serves r status rs c h)
step-Serves env (gets s fail) rs c t c' t' k h done = elim (Option-cases (get_fd env t s fail c)) [
  | inl fault ↦ absurd (ground arith)
  | inr ((answer, ptr, c2, t2), e) ↦
      let (c1, t1, r, conns, guys, same) = get_fd-by env t s fail c answer ptr c2 t2 e in
      let same' : c2 ≡ c' = ground arith in
      let serves : Serves rs c1 = λ x listed. subst (λ m. Pooled m x) (sym conns) (h x listed) in
      subst (Serves rs) (same ∙ same') (get_fd_of-Serves env t1 r rs c1 serves)
]

run-Serves :
    (env : Env) (calls : List Call) (rs : List Remote) (c : ConnsMgr) (t : Trace) (c' : ConnsMgr)
    (t' : Trace)
    → All (λ call. keeps_remotes call ≡ true) calls
    → Serves rs c
    → run env calls (c, t) ≡ some (c', t')
    → Serves rs c'
unfolding run
run-Serves env [] rs c t c' t' k h done = let same : c ≡ c' = cc in subst (Serves rs) same h
run-Serves env (call ∷ calls) rs c t c' t' (k, ks) h done =
    elim (Option-cases (step env call (c, t))) [
      | inl fault ↦
          let fault' : Option (ConnsMgr × Trace) = none in
          let stopped : fault' ≡ some (c', t') =
            ap (λ o. elim o [ none ↦ none | some st ↦ run env calls st ]) (sym fault) ∙ done in
          absurd (ground arith)
      | inr ((c1, t1), e) ↦
          run-Serves env calls rs c1 t1 c' t' ks (step-Serves env call rs c t c1 t1 k h e)
            (ap (λ o. elim o [ none ↦ none | some st ↦ run env calls st ]) (sym e) ∙ done)
    ]

-- The weights of a list of remotes that have pools can be computed.
marked_weights-some :
    (rs fail : List Remote) (c : ConnsMgr) (remotes : List Remote)
    → Serves rs c
    → All (Listed rs) remotes
    → (ws : List ℕ) × (marked_weights c.conns (not_failed fail remotes) ≡ some ws)
unfolding marked_weights not_failed
marked_weights-some rs fail c [] h all = ([], refl)
marked_weights-some rs fail c (r ∷ remotes) h (listed, all) =
    let (ws, e) = marked_weights-some rs fail c remotes h all in
    let (p, found) = h r listed in
    elim (Bool-cases (among r fail)) [
      | inl failed ↦ rw failed (ws, e)
      | inr good ↦ (r.weight * p.health_mark % 2 ^ 64 ∷ ws, ground arith)
    ]

-- A service none of whose remotes that have not failed before lacks a pool.
abbrev pub Weighed : ConnsMgr → List Remote → Service → Type 0
Weighed c fail s = (ws : List ℕ) × (marked_weights c.conns (not_failed fail s.remotes) ≡ some ws)

All-map {ℓ κ μ} :
    {A : Type ℓ} (P : A → Type κ) (Q : A → Type μ) (xs : List A)
    → ((x : A) → P x → Q x)
    → All P xs
    → All Q xs
All-map P Q [] f h = tt
All-map P Q (x ∷ xs) f (h, hs) = (f x h, All-map P Q xs f hs)

-- When a connection manager was configured with the remotes of a configuration that was taken,
-- and was then used by any calls that do not configure it again, the weighted choice for each
-- service of the configuration finds the pools of all its remotes: it dereferences no null pointer.
pub run-Weighed :
    {J : Type 0} (json : Json J) (inet : Inet) (norm : Defaults) (doc : J) (conf : ConfServices)
    (env : Env) (calls : List Call) (fail : List Remote) (c c' : ConnsMgr) (t t' : Trace)
    → init json inet norm doc ≡ some conf
    → All (λ call. keeps_remotes call ≡ true) calls
    → run env calls (config_remotes conf.remotes c, t) ≡ some (c', t')
    → All (Weighed c' fail) conf.services
run-Weighed json inet norm doc conf env calls fail c c' t t' taken k done =
    let serves =
      run-Serves env calls conf.remotes _ t c' t' k (config_remotes-Serves conf.remotes c) done in
    All-map (Sound conf.remotes) (Weighed c' fail) conf.services
      (λ s sound. marked_weights-some conf.remotes fail c' s.remotes serves sound.1)
      (init-Sound json inet norm doc conf taken).0
