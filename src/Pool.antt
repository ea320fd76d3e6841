-- ===== src/Pool.antt =====
-- src/conns_mgr/pool_conns_per_remote.h and src/conns_mgr/details/pool_conns_per_remote.cpp: the
-- long connections kept for one remote, and its health mark. The spin lock is not modelled: a
-- pool belongs to one agent thread.
pub mod Health
pub mod Keeping
use magneto.Base.{
  ℕ, zero, suc, ◌+◌, ◌*◌, ◌/◌, min, max, ltb, leb, ◌==◌, Bool, true, false, if◌then◌else◌, List, [],
  ◌∷◌, length, Option, none, some, ℤ, pos, negsuc, ◌+ℤ◌, ltb_ℤ, eqb_ℤ,
}
use magneto.Model.{Remote}
use magneto.Env.{Env, Trace, Effect, clock, checked, connected, close}

abbrev pub full_mark_health : ℕ
full_mark_health = 100

-- The head of `fds` is the back of the vector. `expiretime_sec_` is filled with zeros as far as it
-- is resized, so it is a function with the value 0 where nothing was written.
pub record PoolConns : Type 0 where
  pub remote : Remote
  pub long_conn_keepalive_sec : ℤ
  pub health_mark : ℕ
  pub fds : List ℤ
  pub expiretime_sec : ℕ → ℤ

unfoldable pub create : Remote → ℤ → PoolConns
create r keepalive = record {
  remote = r;
  long_conn_keepalive_sec = keepalive;
  health_mark = full_mark_health;
  fds = [];
  expiretime_sec = λ _. pos 0;
}

unfoldable pub set_num_long_conns : ℕ → PoolConns → PoolConns
set_num_long_conns n p = record p { remote = record p.remote { long_conns = n } }
  where
    open p use {remote}

-- `std::min(health_mark_<<1, 100)` or `std::max(health_mark_>>1, 1)`.
abbrev pub next_mark : Bool → ℕ → ℕ
next_mark true m = min (m * 2) full_mark_health
next_mark false m = max (m / 2) 1

unfoldable pub report_status : Bool → PoolConns → PoolConns
report_status status p = record p { health_mark = next_mark status p.health_mark }

abbrev pub is_healthy : PoolConns → Bool
is_healthy p = p.health_mark == full_mark_health

abbrev pub update : (ℕ → ℤ) → ℕ → ℤ → ℕ → ℤ
update f i v j = if j == i then v else f j

module _ (env : Env) where
  abbrev connect_to : Trace → PoolConns → (ℤ × Bool) × PoolConns × Trace
  connect_to t p = let (fd, done) = env.connect t p.remote in ((fd, done), p, connected fd ∷ t)

  -- A descriptor that was in the pool is used if the peer has neither closed it nor sent anything.
  abbrev reuse : Trace → ℤ → PoolConns → (ℤ × Bool) × PoolConns × Trace
  reuse t fd p =
      if env.check_conn t fd
      then ((fd, true), p, checked fd ∷ t)
      else connect_to (close fd (checked fd ∷ t)) p

  -- PoolConnsPerRemote::Get.
  unfoldable pub get : Trace → PoolConns → (ℤ × Bool) × PoolConns × Trace
  get t p = elim p.fds [
    | [] ↦ connect_to t p
    | fd ∷ rest ↦
        let p' = record p { fds = rest } in
        if eqb_ℤ fd (pos 0) then connect_to t p' else reuse t fd p'
  ]

  abbrev pub keep : Trace → ℤ → ℕ → PoolConns → PoolConns × Trace
  keep t fd i p =
      let expires = p.expiretime_sec i in
      if eqb_ℤ expires (pos 0)
      then (
        record p {
          expiretime_sec = update p.expiretime_sec i (env.now_sec t +ℤ p.long_conn_keepalive_sec);
          fds = fd ∷ p.fds;
        },
        clock ∷ t,
      )
      else if ltb_ℤ (env.now_sec t) expires
      then (record p { fds = fd ∷ p.fds }, clock ∷ t)
      else (record p { expiretime_sec = update p.expiretime_sec i (pos 0) }, close fd (clock ∷ t))

  -- PoolConnsPerRemote::Put; `none` is the access to `expiretime_sec_` at a negative index.
  unfoldable pub put : Trace → ℤ → PoolConns → Option (PoolConns × Trace)
  put t fd p =
      if leb p.remote.long_conns (length p.fds)
      then some (p, close fd t)
      else elim fd [ pos i ↦ some (keep t (pos i) i p) | negsuc _ ↦ none ]
