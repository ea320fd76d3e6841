-- ===== src/ConnsMgr.antt =====
-- src/conns_mgr/conns_mgr.h and src/conns_mgr/details/conns_mgr.cpp: the pools of all remotes,
-- the set of unhealthy remotes, and the choice of a remote for a service. The hash map and the
-- hash set are lists keyed by `EqRemote`.
pub mod Weights
pub mod Choice
pub mod InSync
pub mod History
pub mod Configured
pub mod Aliasing
use magneto.Base.{
  max, ℕ, zero, suc, ◌+◌, ◌-◌, ◌*◌, ◌%◌, ◌^◌, ltb, leb, ◌==◌, Bool, true, false, not, ◌&&◌, ◌||◌,
  if◌then◌else◌, List, [], ◌∷◌, ◌++◌, length, Option, none, some, ℤ, pos, is_pos,
}
use magneto.Model.{
  Remote, eq_remote, Service, Strategy, normal, weighted, unknown, RemotePtr, Vector, in_service,
  in_tmp, deref,
}
use magneto.Env.{Env, Trace, Effect, drew, close}
use magneto.Pool.{PoolConns, create, set_num_long_conns, report_status, is_healthy}
use magneto.Pool

abbrev pub Conns : Type 0
Conns = List (Remote × PoolConns)

pub record ConnsMgr : Type 0 where
  pub long_conn_keepalive_sec : ℤ
  pub conns : Conns
  pub unhealthy_guys : List Remote
  pub tmp_remotes : Vector

unfoldable pub lookup : Remote → Conns → Option PoolConns
lookup r [] = none
lookup r ((k, p) ∷ m) = if eq_remote k r then some p else lookup r m

-- Writes through the pointer that `CloseHashmap::Get` returned.
unfoldable pub assign : Remote → PoolConns → Conns → Conns
assign r p [] = []
assign r p ((k, q) ∷ m) = if eq_remote k r then (k, p) ∷ m else (k, q) ∷ assign r p m

abbrev pub insert : Remote → PoolConns → Conns → Conns
insert r p m = m ++ ((r, p) ∷ [])

-- Membership by `EqRemote`: `FailedBefore_`, and `IsHealthy_` is its negation on the unhealthy.
unfoldable pub among : Remote → List Remote → Bool
among r [] = false
among r (x ∷ xs) = eq_remote r x || among r xs

unfoldable pub erase : Remote → List Remote → List Remote
erase r [] = []
erase r (x ∷ xs) = if eq_remote r x then erase r xs else x ∷ erase r xs

abbrev pub insert_guy : Remote → List Remote → List Remote
insert_guy r xs = if among r xs then xs else r ∷ xs

-- The loops `weight += weights[i]; if (weight>random) return i`, where `weight` is an `int`.
unfoldable pub pick : ℕ → ℕ → ℕ → List ℕ → Option ℕ
pick random weight i [] = none
pick random weight i (w ∷ ws) =
    let weight' = (weight + w) % 2 ^ 32 in
    let later = pick random weight' (suc i) ws in
    if ltb weight' (2 ^ 31) && ltb random weight' then some i else later

unfoldable pub weights : List Remote → List ℕ
weights [] = []
weights (r ∷ rs) = r.weight ∷ weights rs

unfoldable pub not_failed : List Remote → List Remote → List Remote
not_failed fail [] = []
not_failed fail (r ∷ rs) = if among r fail then not_failed fail rs else r ∷ not_failed fail rs

-- The weights of `tmp_weights_`: each remote's weight times the mark of its pool; `none` is the
-- dereference of the null pointer for a remote that has no pool. A `size_t` product wraps.
unfoldable pub marked_weights : Conns → List Remote → Option (List ℕ)
marked_weights m [] = some []
marked_weights m (r ∷ rs) = elim (lookup r m) [
  | none ↦ none
  | some p ↦ elim (marked_weights m rs) [
    | none ↦ none
    | some ws ↦ some ((r.weight * p.health_mark % 2 ^ 64) ∷ ws)
  ]
]

unfoldable pub sum64 : List ℕ → ℕ
sum64 [] = 0
sum64 (w ∷ ws) = (w + sum64 ws) % 2 ^ 64

abbrev pub slot : Service → Option ℕ → Option RemotePtr
slot s none = none
slot s (some i) = some (in_service s i)

abbrev pub tmp_slot : ℕ → Option ℕ → Option RemotePtr
tmp_slot storage none = none
tmp_slot storage (some i) = some (in_tmp storage i)

-- `clear` keeps the storage of the vector; `push_back` replaces it when the capacity is used up.
abbrev pub refill : Env → List Remote → Vector → Vector
refill env rs tmp = record {
  storage = if leb (length rs) tmp.capacity then tmp.storage else suc tmp.storage;
  capacity =
      if leb (length rs) tmp.capacity
      then tmp.capacity
      else max (length rs) (env.grown tmp.capacity (length rs));
  items = rs;
}

-- What a selection gives: the outer `none` is undefined behaviour (division by zero, a null
-- dereference), the inner one a null pointer.
abbrev pub Selection : Type 0
Selection = Option (Option RemotePtr × ConnsMgr × Trace)

-- `&service.remotes[rand_r(&seed) % service.remotes.size()]`.
unfoldable pub any_remote : Env → Trace → Service → ConnsMgr → Selection
any_remote env t s c =
    if length s.remotes == 0
    then none
    else some (some (in_service s (env.rand_r t % length s.remotes)), c, drew ∷ t)

-- The loop of `GetRemoteNormal_`.
unfoldable pub first_usable : List Remote → List Remote → ℕ → List Remote → Option ℕ
first_usable unhealthy fail i [] = none
first_usable unhealthy fail i (r ∷ rs) =
    if not (among r unhealthy) && not (among r fail)
    then some i
    else first_usable unhealthy fail (suc i) rs

unfoldable pub get_remote_normal : Env → Trace → Service → List Remote → ConnsMgr → Selection
unfolding first_usable any_remote
get_remote_normal env t s fail c = elim (first_usable c.unhealthy_guys fail 0 s.remotes) [
  | some i ↦ some (some (in_service s i), c, t)
  | none ↦ any_remote env t s c
]

abbrev pub by_mark : Env → Trace → List ℕ → ConnsMgr → Selection
by_mark env t ws c =
    if sum64 ws == 0
    then none
    else some (tmp_slot c.tmp_remotes.storage (pick (env.rand_r t % sum64 ws) 0 0 ws), c, drew ∷ t)

-- The branch of `GetRemoteWeight_` that is taken while some remote is unhealthy. It refills
-- `tmp_remotes_`, and what it returns may point into it.
unfoldable pub get_remote_marked : Env → Trace → Service → List Remote → ConnsMgr → Selection
unfolding any_remote
get_remote_marked env t s fail c =
    let c' = record c { tmp_remotes = refill env (not_failed fail s.remotes) c.tmp_remotes } in
    elim (marked_weights c.conns c'.tmp_remotes.items) [
      | none ↦ none
      | some [] ↦ any_remote env t s c'
      | some (w ∷ ws) ↦ by_mark env t (w ∷ ws) c'
    ]

unfoldable pub get_remote_weight : Env → Trace → Service → List Remote → ConnsMgr → Selection
unfolding get_remote_marked
get_remote_weight env t s fail c = elim c.unhealthy_guys [
  | [] ↦
      if s.weight_all == 0
      then none
      else some (slot s (pick (env.rand_r t % s.weight_all) 0 0 (weights s.remotes)), c, drew ∷ t)
  | _ ∷ _ ↦ get_remote_marked env t s fail c
]

-- GetRemote_: a strategy that is neither is reported and gives a null pointer.
unfoldable pub get_remote : Env → Trace → Service → List Remote → ConnsMgr → Selection
unfolding get_remote_normal get_remote_weight
get_remote env t s fail c = elim s.service_strategy [
  | normal ↦ get_remote_normal env t s fail c
  | weighted ↦ get_remote_weight env t s fail c
  | unknown ↦ some (none, c, t)
]

-- GetFd_.
unfoldable pub get_fd_of : Env → Trace → Remote → ConnsMgr → (ℤ × Bool) × ConnsMgr × Trace
get_fd_of env t r c = elim (lookup r c.conns) [
  | none ↦
      let (answer, p, t') = Pool.get env t (create r c.long_conn_keepalive_sec) in
      (answer, record c { conns = insert r p c.conns }, t')
  | some p ↦
      let (answer, p', t') = Pool.get env t p in
      (answer, record c { conns = assign r p' c.conns }, t')
]

-- GetFd; `none` is the dereference of a null pointer or of one out of its vector, or a division
-- by zero in the selection. The descriptor comes with the pointer that is left in `talk.remote`.
unfoldable pub get_fd :
    Env
    → Trace
    → Service
    → List Remote
    → ConnsMgr
    → Option ((ℤ × Bool) × RemotePtr × ConnsMgr × Trace)
get_fd env t s fail c = elim (get_remote env t s fail c) [
  | none ↦ none
  | some (ptr, c', t') ↦ elim ptr [
    | none ↦ none
    | some q ↦ elim (deref c'.tmp_remotes q) [
      | none ↦ none
      | some r ↦ let (answer, c'', u) = get_fd_of env t' r c' in some (answer, q, c'', u)
    ]
  ]
]

-- FreeFd.
unfoldable pub free_fd : Env → Trace → Remote → ℤ → ConnsMgr → Option (ConnsMgr × Trace)
free_fd env t r fd c = elim (lookup r c.conns) [
  | none ↦ some (c, close fd t)
  | some p ↦
      if ltb 0 p.remote.long_conns
      then elim (Pool.put env t fd p) [
        | none ↦ none
        | some (p', t') ↦ some (record c { conns = assign r p' c.conns }, t')
      ]
      else some (c, close fd t)
]

abbrev pub note_change : Remote → Bool → Bool → List Remote → List Remote
note_change r before after guys =
    if before && not after
    then insert_guy r guys
    else if not before && after
    then erase r guys
    else guys

-- ReportStatus.
unfoldable pub report : Remote → Bool → ConnsMgr → ConnsMgr
report r status c = elim (lookup r c.conns) [
  | none ↦ c
  | some p ↦
      let p' = report_status status p in
      record c {
        conns = assign r p' c.conns;
        unhealthy_guys = note_change r (is_healthy p) (is_healthy p') c.unhealthy_guys;
      }
]

-- The first loop of ConfigRemotes: a pool for each configured remote, with its limit set.
unfoldable pub add_remotes : ℤ → List Remote → Conns → Conns
add_remotes keepalive [] m = m
add_remotes keepalive (r ∷ rs) m = add_remotes keepalive rs (elim (lookup r m) [
  | none ↦ insert r (set_num_long_conns r.long_conns (create r keepalive)) m
  | some p ↦ assign r (set_num_long_conns r.long_conns p) m
])

-- The second: pools of remotes that are no longer configured go.
unfoldable pub keep_conns : List Remote → Conns → Conns
keep_conns rs [] = []
keep_conns rs ((k, p) ∷ m) = if among k rs then (k, p) ∷ keep_conns rs m else keep_conns rs m

unfoldable pub forget_guys : List Remote → Conns → List Remote → List Remote
forget_guys rs [] guys = guys
forget_guys rs ((k, p) ∷ m) guys = forget_guys rs m (if among k rs then guys else erase k guys)

unfoldable pub config_remotes : List Remote → ConnsMgr → ConnsMgr
config_remotes rs c =
    let m = add_remotes c.long_conn_keepalive_sec rs c.conns in
    record c { conns = keep_conns rs m; unhealthy_guys = forget_guys rs m c.unhealthy_guys }
