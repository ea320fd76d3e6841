-- ===== src/ConnsMgr/InSync.antt =====
-- `unhealthy_guys_` and the health marks of the pools: the set holds exactly the remotes whose
-- pool is not healthy.
use magneto.Base.{
  ℕ, ◌==◌, ◌≡◌, refl, ap, Bool, true, false, not, ◌&&◌, ◌||◌, Option-cases, inl, inr, List, [], ◌∷◌,
  Option, none, some, arith, if◌then◌else◌, ℤ,
}
use magneto.Model.{Remote, eq_remote}
use magneto.Env.{Env, Trace}
use magneto.Pool.{PoolConns, create, set_num_long_conns, report_status, is_healthy, get, put}
use magneto.ConnsMgr.{
  ConnsMgr, Conns, lookup, assign, insert, among, erase, insert_guy, get_fd_of, free_fd, report,
  add_remotes, keep_conns, forget_guys,
}

abbrev pub sick : Option PoolConns → Bool
sick none = false
sick (some p) = not (is_healthy p)

abbrev pub Agree : Conns → List Remote → Type 0
Agree m guys = (r : Remote) → among r guys ≡ sick (lookup r m)

pub record InSync (c : ConnsMgr) : Type 0 where
  pub agree : Agree c.conns c.unhealthy_guys

pub lookup-assign :
    (r s : Remote) (p q : PoolConns) (m : Conns)
    → lookup r m ≡ some q
    → lookup s (assign r p m) ≡ (if eq_remote r s then some p else lookup s m)
unfolding lookup assign
lookup-assign r s p q [] found = cc
lookup-assign r s p q ((k, x) ∷ m) found = ground (arith, lookup-assign r s p q m)

pub lookup-insert :
    (r s : Remote) (p : PoolConns) (m : Conns)
    → lookup r m ≡ none
    → lookup s (insert r p m) ≡ (if eq_remote r s then some p else lookup s m)
unfolding lookup
lookup-insert r s p [] missing = refl
lookup-insert r s p ((k, x) ∷ m) missing = ground (arith, lookup-insert r s p m)

pub lookup-same : (r s : Remote) (m : Conns) → eq_remote r s ≡ true → lookup r m ≡ lookup s m
unfolding lookup
lookup-same r s [] e = refl
lookup-same r s ((k, x) ∷ m) e = ground (arith, lookup-same r s m)

among-erase :
    (r s : Remote) (xs : List Remote) → among s (erase r xs) ≡ (not (eq_remote r s) && among s xs)
unfolding among erase
among-erase r s [] = ground arith
among-erase r s (x ∷ xs) = ground (arith, among-erase r s xs)

among-same : (r s : Remote) (xs : List Remote) → eq_remote r s ≡ true → among r xs ≡ among s xs
unfolding among
among-same r s [] e = refl
among-same r s (x ∷ xs) e = ground (arith, among-same r s xs)

among-insert_guy :
    (r s : Remote) (xs : List Remote) → among s (insert_guy r xs) ≡ (eq_remote s r || among s xs)
unfolding among
among-insert_guy r s xs = ground (arith, among-same r s xs)

-- A pool that keeps its health mark may be written back.
assign-Agree :
    (r : Remote) (p q : PoolConns) (m : Conns) (guys : List Remote)
    → lookup r m ≡ some q
    → is_healthy p ≡ is_healthy q
    → Agree m guys
    → Agree (assign r p m) guys
assign-Agree r p q m guys found same h s =
    ground (arith, h s, lookup-assign r s p q m, lookup-same r s m)

insert-Agree :
    (r : Remote) (p : PoolConns) (m : Conns) (guys : List Remote)
    → lookup r m ≡ none
    → is_healthy p ≡ true
    → Agree m guys
    → Agree (insert r p m) guys
insert-Agree r p m guys missing healthy h s =
    ground (arith, h s, lookup-insert r s p m, lookup-same r s m)

-- A report about a remote keeps the set and the marks in step.
pub report-InSync :
    (r : Remote) (status : Bool) (c : ConnsMgr) → InSync c → InSync (report r status c)
unfolding report
report-InSync r status c v = record {
  agree = λ s. elim (Option-cases (lookup r c.conns)) [
    | inl missing ↦ ground (arith, v.agree s)
    | inr (p, found) ↦ ground (
      arith,
      v.agree s,
      lookup-assign r s (report_status status p) p c.conns,
      lookup-same r s c.conns,
      among-erase r s c.unhealthy_guys,
      among-insert_guy r s c.unhealthy_guys,
    )
  ];
}

get-mark : (env : Env) (t : Trace) (p : PoolConns) → (get env t p).1.health_mark ≡ p.health_mark
unfolding get
get-mark env t p = ground arith

created :
    (env : Env) (t : Trace) (r : Remote) (keepalive : ℤ)
    → is_healthy (get env t (create r keepalive)).1 ≡ true
unfolding create
created env t r keepalive = rw (get-mark env t (create r keepalive))

pub get_fd_of-InSync :
    (env : Env) (t : Trace) (r : Remote) (c : ConnsMgr) → InSync c → InSync (get_fd_of env t r c).1
unfolding get_fd_of
get_fd_of-InSync env t r c v = record {
  agree = λ s. elim (Option-cases (lookup r c.conns)) [
    | inl missing ↦
        let p = create r c.long_conn_keepalive_sec in
        ground (
          arith,
          insert-Agree r (get env t p).1 c.conns c.unhealthy_guys missing (created env t r _)
              v.agree s,
        )
    | inr (p, found) ↦ ground (
      arith,
      assign-Agree r (get env t p).1 p c.conns c.unhealthy_guys found
          (ap (λ n. n == 100) (get-mark env t p)) v.agree s,
    )
  ];
}

put-mark :
    (env : Env) (t : Trace) (fd : ℤ) (p p' : PoolConns) (t' : Trace)
    → put env t fd p ≡ some (p', t')
    → p'.health_mark ≡ p.health_mark
unfolding put
put-mark env t fd p p' t' run = ground arith

pub free_fd-InSync :
    (env : Env) (t : Trace) (r : Remote) (fd : ℤ) (c c' : ConnsMgr) (t' : Trace)
    → InSync c
    → free_fd env t r fd c ≡ some (c', t')
    → InSync c'
unfolding free_fd
free_fd-InSync env t r fd c c' t' v run = record {
  agree = λ s. elim (Option-cases (lookup r c.conns)) [
    | inl missing ↦ ground (arith, v.agree s)
    | inr (p, found) ↦ elim (Option-cases (put env t fd p)) [
      | inl fault ↦ ground (arith, v.agree s)
      | inr ((p', t''), done) ↦ ground (
        arith,
        v.agree s,
        assign-Agree r p' p c.conns c.unhealthy_guys found
            (ap (λ n. n == 100) (put-mark env t fd p p' t'' done)) v.agree s,
      )
    ]
  ];
}

limited :
    (r : Remote) (keepalive : ℤ)
    → is_healthy (set_num_long_conns r.long_conns (create r keepalive)) ≡ true
unfolding create set_num_long_conns
limited r keepalive = refl

same_mark : (n : ℕ) (p : PoolConns) → is_healthy (set_num_long_conns n p) ≡ is_healthy p
unfolding set_num_long_conns
same_mark n p = refl

pub add_remotes-Agree :
    (keepalive : ℤ) (rs : List Remote) (m : Conns) (guys : List Remote)
    → Agree m guys
    → Agree (add_remotes keepalive rs m) guys
unfolding add_remotes
add_remotes-Agree keepalive [] m guys h = h
add_remotes-Agree keepalive (r ∷ rs) m guys h = elim (Option-cases (lookup r m)) [
  | inl missing ↦ rw missing (
      add_remotes-Agree keepalive rs _ guys
        (insert-Agree r _ m guys missing (limited r keepalive) h))
  | inr (p, found) ↦
      rw found
        (add_remotes-Agree keepalive rs _ guys (assign-Agree r _ p m guys found (same_mark _ p) h))
]

pub lookup-keep_conns :
    (rs : List Remote) (r : Remote) (m : Conns)
    → lookup r (keep_conns rs m) ≡ (if among r rs then lookup r m else none)
unfolding lookup keep_conns
lookup-keep_conns rs r [] = ground arith
lookup-keep_conns rs r ((k, p) ∷ m) = ground (arith, lookup-keep_conns rs r m, among-same k r rs)

-- Remotes that stay configured stay in the set; of the others no known one stays.
pub among-forget_guys :
    (rs : List Remote) (r : Remote) (m : Conns) (guys : List Remote)
    → (among r rs ≡ true → among r (forget_guys rs m guys) ≡ among r guys)
      × (among r rs ≡ false
          → among r (forget_guys rs m guys) ≡ true
          → (lookup r m ≡ none) × (among r guys ≡ true))
unfolding forget_guys lookup
among-forget_guys rs r [] guys = (λ h. refl, λ h e. (refl, e))
among-forget_guys rs r ((k, p) ∷ m) guys = ground (
  arith,
  among-forget_guys rs r m (if among k rs then guys else erase k guys),
  among-same k r rs,
  among-erase k r guys,
)
