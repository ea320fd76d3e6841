-- ===== src/ConnsMgr/History.antt =====
-- Every history of calls of a connection manager.
use magneto.Base.{
  ℕ, ◌==◌, ◌≡◌, ◌∙◌, refl, subst, Bool, Bool-cases, Option-cases, inl, inr, List, [], ◌∷◌, length,
  Option, none, some, arith, ℤ,
}
use magneto.Model.{Remote, RemotePtr, Service, Strategy, normal, weighted, unknown, deref}
use magneto.Env.{Env, Trace}
use magneto.ConnsMgr.{
  refill, Selection, marked_weights, not_failed, sum64, first_usable, ConnsMgr, among, get_fd,
  get_fd_of, get_remote, get_remote_normal, get_remote_weight, get_remote_marked, any_remote,
  by_mark, free_fd, report, add_remotes, config_remotes,
}
use magneto.ConnsMgr.InSync.{
  InSync, among-forget_guys, lookup-keep_conns, add_remotes-Agree, get_fd_of-InSync, free_fd-InSync,
  report-InSync,
}

config_remotes-InSync : (rs : List Remote) (c : ConnsMgr) → InSync c → InSync (config_remotes rs c)
unfolding config_remotes
config_remotes-InSync rs c v = record {
  agree = λ r.
      let m = add_remotes c.long_conn_keepalive_sec rs c.conns in
      let before =
        add_remotes-Agree c.long_conn_keepalive_sec rs c.conns c.unhealthy_guys v.agree r in
      let kept = lookup-keep_conns rs r m in
      let gone = among-forget_guys rs r m c.unhealthy_guys in
      elim (Bool-cases (among r rs)) [
        | inl yes_conf ↦ gone.0 yes_conf ∙ ground arith
        | inr no_conf ↦ ground arith
      ];
}

abbrev Keeps : ConnsMgr → Selection → Type 0
Keeps c none = Unit
Keeps c (some (ptr, c', t')) = (c'.conns ≡ c.conns) × (c'.unhealthy_guys ≡ c.unhealthy_guys)

any_remote-Keeps :
    (env : Env) (t : Trace) (s : Service) (c : ConnsMgr) → Keeps c (any_remote env t s c)
unfolding any_remote
any_remote-Keeps env t s c = elim (Bool-cases (length s.remotes == 0)) [
  | inl empty ↦ rw empty tt
  | inr some_remote ↦ rw some_remote (refl, refl)
]

by_mark-Keeps : (env : Env) (t : Trace) (ws : List ℕ) (c : ConnsMgr) → Keeps c (by_mark env t ws c)
by_mark-Keeps env t ws c = elim (Bool-cases (sum64 ws == 0)) [
  | inl zero_sum ↦ rw zero_sum tt
  | inr positive ↦ rw positive (refl, refl)
]

get_remote_normal-Keeps :
    (env : Env) (t : Trace) (s : Service) (fail : List Remote) (c : ConnsMgr)
    → Keeps c (get_remote_normal env t s fail c)
unfolding get_remote_normal
get_remote_normal-Keeps env t s fail c =
    elim (Option-cases (first_usable c.unhealthy_guys fail 0 s.remotes)) [
      | inl missing ↦ rw (missing, get_remote_normal) (any_remote-Keeps env t s c)
      | inr (i, found) ↦ rw (found, get_remote_normal) (refl, refl)
    ]

get_remote_marked-Keeps :
    (env : Env) (t : Trace) (s : Service) (fail : List Remote) (c : ConnsMgr)
    → Keeps c (get_remote_marked env t s fail c)
unfolding get_remote_marked
get_remote_marked-Keeps env t s fail c =
    by_marks (marked_weights c.conns (not_failed fail s.remotes)) refl
  where
    c1 : ConnsMgr
    c1 = record c { tmp_remotes = refill env (not_failed fail s.remotes) c.tmp_remotes }

    by_marks :
        (ws : Option (List ℕ))
        → marked_weights c.conns (not_failed fail s.remotes) ≡ ws
        → Keeps c (get_remote_marked env t s fail c)
    by_marks none e = rw (e, get_remote_marked) tt
    by_marks (some []) e = rw (e, get_remote_marked) (any_remote-Keeps env t s c1)
    by_marks (some (w ∷ ws)) e = rw (e, get_remote_marked) (by_mark-Keeps env t (w ∷ ws) c1)

get_remote_weight-Keeps :
    (env : Env) (t : Trace) (s : Service) (fail : List Remote) (c : ConnsMgr)
    → Keeps c (get_remote_weight env t s fail c)
unfolding get_remote_weight
get_remote_weight-Keeps env t s fail c = by_guys c.unhealthy_guys refl
  where
    by_guys :
        (gs : List Remote) → c.unhealthy_guys ≡ gs → Keeps c (get_remote_weight env t s fail c)
    by_guys [] e = elim (Bool-cases (s.weight_all == 0)) [
      | inl weightless ↦ rw (e, get_remote_weight) (rw weightless tt)
      | inr positive ↦ rw (e, get_remote_weight) (rw positive (refl, e))
    ]
    by_guys (g ∷ gs) e = simp (e, get_remote_weight) (get_remote_marked-Keeps env t s fail c)

get_remote-Keeps :
    (env : Env) (t : Trace) (s : Service) (fail : List Remote) (c : ConnsMgr)
    → Keeps c (get_remote env t s fail c)
unfolding get_remote
get_remote-Keeps env t s fail c = by_strategy s.service_strategy refl
  where
    by_strategy : (st : Strategy) → s.service_strategy ≡ st → Keeps c (get_remote env t s fail c)
    by_strategy normal e = rw (e, get_remote) (get_remote_normal-Keeps env t s fail c)
    by_strategy weighted e = rw (e, get_remote) (get_remote_weight-Keeps env t s fail c)
    by_strategy unknown e = rw (e, get_remote) (refl, refl)

-- The calls of the agent on its connection manager, in the order in which it makes them.
pub data Call : Type 0 where
  gets : Service → List Remote → Call
  frees : Remote → ℤ → Call
  reports : Remote → Bool → Call
  configures : List Remote → Call

-- The state after one call; `none` is undefined behaviour.
unfoldable pub step : Env → Call → ConnsMgr × Trace → Option (ConnsMgr × Trace)
step env (gets s fail) (c, t) = elim (get_fd env t s fail c) [
  | none ↦ none
  | some (answer, ptr, c', t') ↦ some (c', t')
]
step env (frees r fd) (c, t) = free_fd env t r fd c
step env (reports r status) (c, t) = some (report r status c, t)
step env (configures rs) (c, t) = some (config_remotes rs c, t)

unfoldable pub run : Env → List Call → ConnsMgr × Trace → Option (ConnsMgr × Trace)
run env [] st = some st
run env (call ∷ calls) st = elim (step env call st) [ none ↦ none | some st' ↦ run env calls st' ]

-- A selection changes neither the pools nor the set; then one remote's pool gives a descriptor.
pub get_fd-by :
    (env : Env) (t : Trace) (s : Service) (fail : List Remote) (c : ConnsMgr) (answer : ℤ × Bool)
    (ptr : RemotePtr) (c' : ConnsMgr) (t' : Trace)
    → get_fd env t s fail c ≡ some (answer, ptr, c', t')
    → (c1 : ConnsMgr) × (t1 : Trace) × (r : Remote) × (c1.conns ≡ c.conns)
      × (c1.unhealthy_guys ≡ c.unhealthy_guys)
      × ((get_fd_of env t1 r c1).1 ≡ c')
unfolding get_fd
get_fd-by env t s fail c answer ptr c' t' done = go (get_remote env t s fail c) refl
  where
    go :
        (sel : Selection)
        → get_remote env t s fail c ≡ sel
        → (c1 : ConnsMgr) × (t1 : Trace) × (r : Remote) × (c1.conns ≡ c.conns)
          × (c1.unhealthy_guys ≡ c.unhealthy_guys)
          × ((get_fd_of env t1 r c1).1 ≡ c')
    go none e = absurd (ground arith)
    go (some (none, c1, t1)) e = absurd (ground arith)
    go (some (some q, c1, t1)) e =
        let kept : Keeps c (some (some q, c1, t1)) =
          subst (Keeps c) e (get_remote-Keeps env t s fail c) in
        elim (Option-cases (deref c1.tmp_remotes q)) [
          | inl dangling ↦ absurd (ground arith)
          | inr (r, there) ↦ (c1, t1, r, kept.0, kept.1, ground arith)
        ]

get_fd-InSync :
    (env : Env) (t : Trace) (s : Service) (fail : List Remote) (c : ConnsMgr) (answer : ℤ × Bool)
    (ptr : RemotePtr) (c' : ConnsMgr) (t' : Trace)
    → InSync c
    → get_fd env t s fail c ≡ some (answer, ptr, c', t')
    → InSync c'
get_fd-InSync env t s fail c answer ptr c' t' v done =
    let (c1, t1, r, conns, guys, same) = get_fd-by env t s fail c answer ptr c' t' done in
    let v1 : InSync c1 = record { agree = λ r. rw (conns, guys) (v.agree r) } in
    subst InSync same (get_fd_of-InSync env t1 r c1 v1)

step-InSync :
    (env : Env) (call : Call) (c : ConnsMgr) (t : Trace) (c' : ConnsMgr) (t' : Trace)
    → InSync c
    → step env call (c, t) ≡ some (c', t')
    → InSync c'
unfolding step
step-InSync env (gets s fail) c t c' t' v done = elim (Option-cases (get_fd env t s fail c)) [
  | inl fault ↦ absurd (ground arith)
  | inr ((answer, ptr, c1, t1), e) ↦
      let same : c1 ≡ c' = ground arith in
      subst InSync same (get_fd-InSync env t s fail c answer ptr c1 t1 v e)
]
step-InSync env (frees r fd) c t c' t' v done = free_fd-InSync env t r fd c c' t' v done
step-InSync env (reports r status) c t c' t' v done =
    let same : report r status c ≡ c' = cc in subst InSync same (report-InSync r status c v)
step-InSync env (configures rs) c t c' t' v done =
    let same : config_remotes rs c ≡ c' = cc in subst InSync same (config_remotes-InSync rs c v)

-- From a state in which they agree, as the new manager's, after any history of calls that does not
-- end in undefined behaviour, the set of unhealthy remotes holds exactly the remotes that have a
-- pool whose mark is not full.
pub run-InSync :
    (env : Env) (calls : List Call) (c : ConnsMgr) (t : Trace) (c' : ConnsMgr) (t' : Trace)
    → InSync c
    → run env calls (c, t) ≡ some (c', t')
    → InSync c'
unfolding run
run-InSync env [] c t c' t' v done = let same : c ≡ c' = cc in subst InSync same v
run-InSync env (call ∷ calls) c t c' t' v done = elim (Option-cases (step env call (c, t))) [
  | inl fault ↦ absurd (stopped fault done)
  | inr ((c1, t1), e) ↦
      run-InSync env calls c1 t1 c' t' (step-InSync env call c t c1 t1 v e) (rw (e, run) at done)
]
  where
    stopped : step env call (c, t) ≡ none → run env (call ∷ calls) (c, t) ≡ some (c', t') → ⊥
    stopped fault go_on = ground arith
