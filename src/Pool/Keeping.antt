-- ===== src/Pool/Keeping.antt =====
-- PoolConnsPerRemote::Get and Put: what becomes of the descriptors.
use magneto.Base.{
  ℕ, suc, ◌+◌, ◌≤◌, ◌<◌, max, ◌≡◌, ◌≢◌, ◌⊎◌, inl, inr, true, false, List, [], ◌∷◌, length, arith,
  Bool-cases, leb, if◌then◌else◌, Option, none, some, ℤ, pos, negsuc, ltb_ℤ, leb_ℤ, eqb_ℤ, is_pos,
}
use magneto.Env.{Env, Trace, clock, closed, checked}
use magneto.Pool.{PoolConns, get, put, keep, update}

abbrev pub All {ℓ κ} : {A : Type ℓ} → (A → Type κ) → List A → Type κ
All P [] = Unit
All P (x ∷ xs) = P x × All P xs

-- How often the descriptor was handed to `close`.
abbrev pub closes : ℤ → Trace → ℕ
closes fd [] = 0
closes fd (closed fd' ∷ t) = (if eqb_ℤ fd fd' then 1 else 0) + closes fd t
closes fd (_ ∷ t) = closes fd t

-- How often it is in the pool.
abbrev pub held : ℤ → List ℤ → ℕ
held fd [] = 0
held fd (x ∷ xs) = (if eqb_ℤ fd x then 1 else 0) + held fd xs

-- `p` and `t` are the state before, with the descriptor `fd` in the caller's hand.
abbrev pub Accounted : PoolConns → Trace → ℤ → Option (PoolConns × Trace) → Type 0
Accounted p t fd none = ⊥
Accounted p t fd (some (p', t')) =
    ((f : ℤ) → held f p'.fds + closes f t' ≡ held f p.fds + closes f t + held f (fd ∷ []))
    × (length p'.fds ≤ max (length p.fds) p.remote.long_conns)

module _ (env : Env) where
  keep-Accounted :
      (t : Trace) (i : ℕ) (p : PoolConns)
      → length p.fds < p.remote.long_conns
      → Accounted p t (pos i) (some (keep env t (pos i) i p))
  keep-Accounted t i p room = elim (Bool-cases (eqb_ℤ (p.expiretime_sec i) (pos 0))) [
    | inl unset ↦ rw unset (λ f. omega arith, omega arith)
    | inr set ↦ elim (Bool-cases (ltb_ℤ (env.now_sec t) (p.expiretime_sec i))) [
      | inl live ↦ rw (set, live) (λ f. omega arith, omega arith)
      | inr dead ↦ rw (set, dead) (λ f. omega arith, omega arith)
    ]
  ]

  -- A valid descriptor that is put back is afterwards in the pool or closed, once and never both;
  -- no other descriptor is touched, and the pool does not grow past its limit.
  pub put-Accounted :
      (t : Trace) (fd : ℤ) (p : PoolConns) → is_pos fd ≡ true → Accounted p t fd (put env t fd p)
  unfolding put
  put-Accounted t (pos i) p h = elim (Bool-cases (leb p.remote.long_conns (length p.fds))) [
    | inl full ↦ rw full (λ f. omega arith, omega arith)
    | inr room ↦ rw room (keep-Accounted t i p (ground arith))
  ]
  put-Accounted t (negsuc i) p h = cc

  -- A pooled descriptor is handed out only after its check has passed; one that fails the check is
  -- closed and a new connection takes its place. In both cases it has left the pool, and the rest
  -- of the pool stays.
  pub get-pooled :
      (t : Trace) (p : PoolConns) (i : ℕ) (rest : List ℤ)
      → p.fds ≡ pos (suc i) ∷ rest
      → ((get env t p).1.fds ≡ rest)
        × (((env.check_conn t (pos (suc i)) ≡ true)
              × ((get env t p).0 ≡ (pos (suc i), true))
              × ((get env t p).2 ≡ checked (pos (suc i)) ∷ t))
            ⊎ ((env.check_conn t (pos (suc i)) ≡ false)
                × ((get env t p).0
                    ≡ env.connect (closed (pos (suc i)) ∷ checked (pos (suc i)) ∷ t) p.remote)
                × (closes (pos (suc i)) (get env t p).2 ≡ closes (pos (suc i)) t + 1)))
  unfolding get
  get-pooled t p i rest e = elim (Bool-cases (env.check_conn t (pos (suc i)))) [
    | inl fine ↦ (ground arith, inl (fine, ground arith, ground arith))
    | inr dead ↦ (ground arith, inr (dead, ground arith, ground arith))
  ]

  -- The expiry time of a descriptor outlives the descriptor. When a pooled descriptor fails its
  -- check, `Get` closes it and leaves its expiry time; a new connection on which the system later
  -- reuses the number is then closed by its first `Put` once that time has passed, however new it
  -- is, and before that it is kept for no longer than the old one would have been.
  pub stale_expiry :
      (t u : Trace) (p : PoolConns) (i : ℕ) (rest : List ℤ)
      → p.fds ≡ pos (suc i) ∷ rest
      → env.check_conn t (pos (suc i)) ≡ false
      → p.expiretime_sec (suc i) ≢ pos 0
      → length rest < p.remote.long_conns
      → let p' = (get env t p).1 in
        (p'.expiretime_sec (suc i) ≡ p.expiretime_sec (suc i))
        × (((leb_ℤ (p.expiretime_sec (suc i)) (env.now_sec u) ≡ true)
              × (put env u (pos (suc i)) p'
                  ≡ some (
                    record p' { expiretime_sec = update p'.expiretime_sec (suc i) (pos 0) },
                    closed (pos (suc i)) ∷ clock ∷ u,
                  )))
            ⊎ ((leb_ℤ (p.expiretime_sec (suc i)) (env.now_sec u) ≡ false)
                × (put env u (pos (suc i)) p'
                    ≡ some (record p' { fds = pos (suc i) ∷ p'.fds }, clock ∷ u))))
  unfolding get put
  stale_expiry t u p i rest e dead set room =
      elim (Bool-cases (leb_ℤ (p.expiretime_sec (suc i)) (env.now_sec u))) [
        | inl over ↦ (ground arith, inl (over, ground arith))
        | inr live ↦ (ground arith, inr (live, ground arith))
      ]
