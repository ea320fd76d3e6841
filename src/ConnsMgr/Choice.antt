-- ===== src/ConnsMgr/Choice.antt =====
-- GetRemoteNormal_ and GetRemoteWeight_: which remote is chosen.
use magneto.Base.{
  ==_iff, ℕ, zero, suc, ◌+◌, ◌*◌, ◌%◌, ◌^◌, ◌<◌, ◌≡◌, ◌⊎◌, ◌∙◌, refl, ap, Bool, true, false, not,
  ◌&&◌, Bool-cases, Option-cases, inl, inr, List, [], ◌∷◌, length, none, some, get_elem?, arith,
}
use magneto.Model.{Remote, eq_remote, Service, in_service, in_tmp, deref}
use magneto.Env.{Env, Trace, drew}
use magneto.Pool.{PoolConns}
use magneto.ConnsMgr.{
  ConnsMgr, Conns, lookup, among, pick, weights, not_failed, marked_weights, sum64, first_usable,
  any_remote, get_remote_normal, get_remote_marked, get_remote_weight, by_mark, refill, Selection,
}
use magneto.ConnsMgr.Weights.{sum, Draws, pick-Draws, Draws-weight, sum64-sum}

weights-elem :
    (rs : List Remote) (i : ℕ) (w : ℕ)
    → get_elem? (weights rs) i ≡ some w
    → (r : Remote) × (get_elem? rs i ≡ some r) × (r.weight ≡ w)
unfolding weights
weights-elem [] i w e = cc
weights-elem (r ∷ rs) zero w e = (r, refl, ground arith)
weights-elem (r ∷ rs) (suc i) w e = weights-elem rs i w e

-- With all remotes healthy, for a service whose `weight_all` is the sum of the weights of its remotes,
-- positive and less than 2^31, the choice is the remote in whose stretch the random number lies, and
-- its weight is positive.
pub get_remote_weight-healthy :
    (env : Env) (t : Trace) (s : Service) (fail : List Remote) (c : ConnsMgr)
    → c.unhealthy_guys ≡ []
    → s.weight_all ≡ sum (weights s.remotes)
    → 0 < s.weight_all
    → s.weight_all < 2 ^ 31
    → (i : ℕ) × (r : Remote) × (get_remote_weight env t s fail c
        ≡ some (some (in_service s i), c, drew ∷ t))
      × Draws (env.rand_r t % s.weight_all) 0 (weights s.remotes) i
      × (get_elem? s.remotes i ≡ some r)
      × (0 < r.weight)
unfolding get_remote_weight
get_remote_weight-healthy env t s fail c healthy total some_weight fits =
    let rnd = env.rand_r t % s.weight_all in
    let (i, found, draws) =
      pick-Draws rnd 0 0 (weights s.remotes) (omega arith) (omega arith) (grind arith) in
    let (w, at, positive) = Draws-weight rnd 0 (weights s.remotes) i draws in
    let (r, here, same) = weights-elem s.remotes i w at in
    (i, r, ground arith, draws, here, omega arith)

eq_remote_refl : (r : Remote) → eq_remote r r ≡ true
eq_remote_refl r = ground arith

abbrev OutAndIn : List Remote → List Remote → Remote → Type 0
OutAndIn fail rs r = (among r fail ≡ false) × (among r rs ≡ true)

kept-elem :
    (fail rs : List Remote) (x r : Remote) (j : ℕ)
    → ((i : ℕ) → get_elem? (not_failed fail rs) i ≡ some r → OutAndIn fail rs r)
    → get_elem? (x ∷ not_failed fail rs) j ≡ some r
    → among x fail ≡ false
    → OutAndIn fail (x ∷ rs) r
unfolding among
kept-elem fail rs x r zero later at fresh =
    let same : x ≡ r = cc in (rw (← same) fresh, ground arith)
kept-elem fail rs x r (suc j) later at fresh = let (out, member) = later j at in (out, ground arith)

not_failed-elem :
    (fail rs : List Remote) (i : ℕ) (r : Remote)
    → get_elem? (not_failed fail rs) i ≡ some r
    → OutAndIn fail rs r
unfolding not_failed among
not_failed-elem fail [] i r e = cc
not_failed-elem fail (x ∷ rs) i r e = elim (Bool-cases (among x fail)) [
  | inl failed ↦
      let (out, member) = not_failed-elem fail rs i r (rw failed at e) in (out, ground arith)
  | inr fresh ↦ kept-elem fail rs x r i (λ j. not_failed-elem fail rs j r) (rw fresh at e) fresh
]

marked_weights-cons :
    (m : Conns) (x : Remote) (rs : List Remote) (ws : List ℕ)
    → marked_weights m (x ∷ rs) ≡ some ws
    → (p : PoolConns) × (ws' : List ℕ) × (lookup x m ≡ some p)
      × (marked_weights m rs ≡ some ws')
      × (ws ≡ (x.weight * p.health_mark % 2 ^ 64) ∷ ws')
unfolding marked_weights
marked_weights-cons m x rs ws e = elim (Option-cases (lookup x m)) [
  | inl missing ↦ ground arith
  | inr (p, found) ↦ elim (Option-cases (marked_weights m rs)) [
    | inl stuck ↦ ground arith
    | inr (ws', rest) ↦ (p, ws', found, rest, ground arith)
  ]
]

no_elem : (i w : ℕ) → ¬ (get_elem? [] i ≡ some w)
no_elem i w e = cc

marked_weights-elem :
    (m : Conns) (rs : List Remote) (ws : List ℕ) (i w : ℕ)
    → marked_weights m rs ≡ some ws
    → get_elem? ws i ≡ some w
    → (r : Remote) × (p : PoolConns) × (get_elem? rs i ≡ some r)
      × (lookup r m ≡ some p)
      × (w ≡ r.weight * p.health_mark % 2 ^ 64)
unfolding marked_weights
marked_weights-elem m [] ws i w e at =
    let none_there : ws ≡ [] = ground arith in absurd (no_elem i w (rw none_there at at))
marked_weights-elem m (x ∷ rs) ws zero w e at =
    let (p, ws', found, rest, split) = marked_weights-cons m x rs ws e in
    (x, p, refl, found, ground arith)
marked_weights-elem m (x ∷ rs) ws (suc i) w e at =
    let (p, ws', found, rest, split) = marked_weights-cons m x rs ws e in
    marked_weights-elem m rs ws' i w rest (rw split at at)

by_mark-run :
    (env : Env) (t : Trace) (ws : List ℕ) (c : ConnsMgr) (n i : ℕ)
    → sum64 ws ≡ n
    → 0 < n
    → pick (env.rand_r t % n) 0 0 ws ≡ some i
    → by_mark env t ws c ≡ some (some (in_tmp c.tmp_remotes.storage i), c, drew ∷ t)
by_mark-run env t ws c n i total some_weight found = ground arith

get_remote_weight-by_mark :
    (env : Env) (t : Trace) (s : Service) (fail : List Remote) (c : ConnsMgr) (g : Remote)
    (gs : List Remote) (w : ℕ) (ws : List ℕ)
    → c.unhealthy_guys ≡ g ∷ gs
    → marked_weights c.conns (not_failed fail s.remotes) ≡ some (w ∷ ws)
    → get_remote_weight env t s fail c
      ≡ by_mark env t
          (w ∷ ws)
          (record c { tmp_remotes = refill env (not_failed fail s.remotes) c.tmp_remotes })
unfolding get_remote_weight
get_remote_weight-by_mark env t s fail c g gs w ws unhealthy marks =
    simp (unhealthy, marks, get_remote_weight, get_remote_marked)

-- While some remote is unhealthy, when each remote of the service that has not failed before in this
-- talk has a pool, and their weights times health marks have a sum that is positive and less than
-- 2^31, the choice falls on one of these remotes, in proportion to weight times health mark: it is
-- the remote in whose stretch of the marked weights the random number lies. The pointer returned
-- points into `tmp_remotes_`.
pub get_remote_weight-marked :
    (env : Env) (t : Trace) (s : Service) (fail : List Remote) (c : ConnsMgr) (g : Remote)
    (gs : List Remote) (ws : List ℕ)
    → c.unhealthy_guys ≡ g ∷ gs
    → marked_weights c.conns (not_failed fail s.remotes) ≡ some ws
    → 0 < sum ws
    → sum ws < 2 ^ 31
    → let c' = record c { tmp_remotes = refill env (not_failed fail s.remotes) c.tmp_remotes } in
      (i : ℕ) × (r : Remote) × (p : PoolConns) × (get_remote_weight env t s fail c
        ≡ some (some (in_tmp c'.tmp_remotes.storage i), c', drew ∷ t))
      × (deref c'.tmp_remotes (in_tmp c'.tmp_remotes.storage i) ≡ some r)
      × (lookup r c.conns ≡ some p)
      × (among r fail ≡ false)
      × (among r s.remotes ≡ true)
      × (0 < r.weight * p.health_mark)
      × Draws (env.rand_r t % sum ws) 0 ws i
get_remote_weight-marked env t s fail c g gs [] unhealthy marks some_weight fits =
    absurd (omega arith)
get_remote_weight-marked env t s fail c g gs (w0 ∷ ws0) unhealthy marks some_weight fits =
    let ws = w0 ∷ ws0 in
    let rnd = env.rand_r t % sum ws in
    let (i, found, draws) = pick-Draws rnd 0 0 ws (omega arith) (omega arith) (grind arith) in
    let (w, at, positive) = Draws-weight rnd 0 ws i draws in
    let (r, p, here, pool, same) =
      marked_weights-elem c.conns (not_failed fail s.remotes) ws i w marks at in
    let (out, member) = not_failed-elem fail s.remotes i r here in
    (
      i,
      r,
      p,
      run {i = i} (found ∙ ap some (omega arith)),
      deref-here i r here,
      pool,
      out,
      member,
      grind arith,
      draws,
    )
  where
    deref-here :
        (i : ℕ) (r : Remote)
        → get_elem? (not_failed fail s.remotes) i ≡ some r
        → let tmp = refill env (not_failed fail s.remotes) c.tmp_remotes in
          deref tmp (in_tmp tmp.storage i) ≡ some r
    deref-here i r here =
        let tmp = refill env (not_failed fail s.remotes) c.tmp_remotes in
        rw ((==_iff tmp.storage tmp.storage).1 refl) here

    run :
        {i : ℕ}
        → pick (env.rand_r t % sum (w0 ∷ ws0)) 0 0 (w0 ∷ ws0) ≡ some i
        → get_remote_weight env t s fail c
          ≡ some (
            some (in_tmp (refill env (not_failed fail s.remotes) c.tmp_remotes).storage i),
            record c { tmp_remotes = refill env (not_failed fail s.remotes) c.tmp_remotes },
            drew ∷ t,
          )
    run {i} found =
        get_remote_weight-by_mark env t s fail c g gs w0 ws0 unhealthy marks
        ∙ by_mark-run env t (w0 ∷ ws0) _ (sum (w0 ∷ ws0)) i (sum64-sum (w0 ∷ ws0) (omega arith))
            some_weight found

abbrev usable : List Remote → List Remote → Remote → Bool
usable unhealthy fail r = not (among r unhealthy) && not (among r fail)

-- What `GetRemoteNormal_` promises of an index: that remote is usable and none before it is.
abbrev pub FirstUsable : List Remote → List Remote → List Remote → ℕ → Type 0
FirstUsable unhealthy fail [] i = ⊥
FirstUsable unhealthy fail (r ∷ rs) zero = usable unhealthy fail r ≡ true
FirstUsable unhealthy fail (r ∷ rs) (suc i) =
    (usable unhealthy fail r ≡ false) × FirstUsable unhealthy fail rs i

abbrev pub NoneUsable : List Remote → List Remote → List Remote → Type 0
NoneUsable unhealthy fail [] = Unit
NoneUsable unhealthy fail (r ∷ rs) =
    (usable unhealthy fail r ≡ false) × NoneUsable unhealthy fail rs

first_usable-cases :
    (unhealthy fail rs : List Remote) (k : ℕ)
    → ((i : ℕ) × (first_usable unhealthy fail k rs ≡ some (k + i))
        × FirstUsable unhealthy fail rs i)
      ⊎ ((first_usable unhealthy fail k rs ≡ none) × NoneUsable unhealthy fail rs)
unfolding first_usable
first_usable-cases unhealthy fail [] k = inr (refl, tt)
first_usable-cases unhealthy fail (r ∷ rs) k = elim (Bool-cases (usable unhealthy fail r)) [
  | inl good ↦ inl (0, rw good (ap some (omega arith)), good)
  | inr bad ↦ elim (first_usable-cases unhealthy fail rs (suc k)) [
    | inl (i, found, first) ↦ inl (suc i, rw bad (found ∙ ap some (omega arith)), (bad, first))
    | inr (missing, rest) ↦ inr (rw bad missing, (bad, rest))
  ]
]

any_remote-cases :
    (env : Env) (t : Trace) (s : Service) (c : ConnsMgr) {out : Selection}
    → out ≡ any_remote env t s c
    → ((s.remotes ≡ []) × (out ≡ none))
      ⊎ ((i : ℕ) × (i < length s.remotes) × (out ≡ some (some (in_service s i), c, drew ∷ t)))
unfolding any_remote
any_remote-cases env t s c {out} run = by_remotes s.remotes refl
  where
    by_remotes :
        (rs : List Remote)
        → s.remotes ≡ rs
        → ((s.remotes ≡ []) × (out ≡ none))
          ⊎ ((i : ℕ) × (i < length s.remotes) × (out ≡ some (some (in_service s i), c, drew ∷ t)))
    by_remotes [] e = inl (e, ground arith)
    by_remotes (r ∷ rs) e = inr (env.rand_r t % length s.remotes, ground arith, ground arith)

-- The normal strategy takes the first remote that is healthy and has not failed before in this
-- talk, and draws nothing; if there is none, any remote of the service, by a random number; and a
-- service with no remotes divides by zero.
pub get_remote_normal-choice :
    (env : Env) (t : Trace) (s : Service) (fail : List Remote) (c : ConnsMgr)
    → ((i : ℕ) × (get_remote_normal env t s fail c ≡ some (some (in_service s i), c, t))
        × FirstUsable c.unhealthy_guys fail s.remotes i)
      ⊎ (NoneUsable c.unhealthy_guys fail s.remotes
          × (((s.remotes ≡ []) × (get_remote_normal env t s fail c ≡ none))
              ⊎ ((i : ℕ) × (i < length s.remotes)
                  × (get_remote_normal env t s fail c
                      ≡ some (some (in_service s i), c, drew ∷ t)))))
unfolding get_remote_normal
get_remote_normal-choice env t s fail c =
    elim (first_usable-cases c.unhealthy_guys fail s.remotes 0) [
      | inl (i, found, first) ↦ inl (i, ground arith, first)
      | inr (missing, rest) ↦
          let run : get_remote_normal env t s fail c ≡ any_remote env t s c = ground arith in
          inr (rest, any_remote-cases env t s c run)
    ]
