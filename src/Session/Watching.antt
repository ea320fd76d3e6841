-- ===== src/Session/Watching.antt =====
-- Session::ResetTalk_: which descriptors it registers.
use magneto.Base.{
  ℕ, ◌+◌, ◌≤◌, Bool, ◌&&◌, if◌then◌else◌, List, [], ◌∷◌, Bool-cases, Option-cases, Option, none,
  some, ℤ, pos, eqb_ℤ, ◌≡◌, ◌∙◌, sym, ap, inl, inr, arith,
}
use magneto.Model.{Talk, Service, Remote, RemotePtr, deref, is_ok, kok}
use magneto.Env.{Env, Trace, add_event, registered}
use magneto.Pool
use magneto.Pool.{PoolConns}
use magneto.ConnsMgr.{
  ConnsMgr, lookup, get_remote_normal, get_remote_weight, get_remote_marked, any_remote, get_remote,
  get_fd_of, get_fd,
}
use magneto.Session.{Timeouts, acquire, re_encode, arm, reset_talk}
use magneto.Session.Arming.{NotNegative, acquire-Staged, re_encode-Staged}

-- How often a descriptor was registered anew.
abbrev pub watched : ℤ → Trace → ℕ
watched fd [] = 0
watched fd (registered x add_event ev timeo ∷ t) = (if eqb_ℤ x fd then 1 else 0) + watched fd t
watched fd (_ ∷ t) = watched fd t

pool_get-watched :
    (env : Env) (t : Trace) (p : PoolConns) (f : ℤ) → watched f (Pool.get env t p).2 ≡ watched f t
unfolding Pool.get
pool_get-watched env t p f = ground arith

get_fd_of-watched :
    (env : Env) (t : Trace) (r : Remote) (c : ConnsMgr) (f : ℤ)
    → watched f (get_fd_of env t r c).2 ≡ watched f t
unfolding get_fd_of
get_fd_of-watched env t r c f = elim (Option-cases (lookup r c.conns)) [
  | inl missing ↦
      let p = Pool.create r c.long_conn_keepalive_sec in
      let same : (get_fd_of env t r c).2 ≡ (Pool.get env t p).2 = simp (missing, get_fd_of) in
      ap (watched f) same ∙ pool_get-watched env t p f
  | inr (p, found) ↦
      let same : (get_fd_of env t r c).2 ≡ (Pool.get env t p).2 = simp (found, get_fd_of) in
      ap (watched f) same ∙ pool_get-watched env t p f
]

any_remote-watched :
    (env : Env) (t t' : Trace) (s : Service) (c c' : ConnsMgr) (ptr : Option RemotePtr) (f : ℤ)
    → any_remote env t s c ≡ some (ptr, c', t')
    → watched f t' ≡ watched f t
unfolding any_remote
any_remote-watched env t t' s c c' ptr f run = ground arith

get_remote-watched :
    (env : Env) (t t' : Trace) (s : Service) (fail : List Remote) (c c' : ConnsMgr)
    (ptr : Option RemotePtr) (f : ℤ)
    → get_remote env t s fail c ≡ some (ptr, c', t')
    → watched f t' ≡ watched f t
unfolding get_remote get_remote_normal get_remote_weight get_remote_marked any_remote
get_remote-watched env t t' s fail c c' ptr f run = ground arith

get_fd-watched :
    (env : Env) (t t' : Trace) (s : Service) (fail : List Remote) (c c' : ConnsMgr)
    (answer : ℤ × Bool) (ptr : RemotePtr) (f : ℤ)
    → get_fd env t s fail c ≡ some (answer, ptr, c', t')
    → watched f t' ≡ watched f t
unfolding get_fd
get_fd-watched env t t' s fail c c' answer ptr f run =
    elim (Option-cases (get_remote env t s fail c)) [
      | inl fault ↦ absurd (ground arith)
      | inr ((none, c1, t1), run1) ↦ absurd (ground arith)
      | inr ((some q, c1, t1), run1) ↦ elim (Option-cases (deref c1.tmp_remotes q)) [
        | inl dangling ↦ absurd (ground arith)
        | inr (r, at) ↦
            let same : (get_fd_of env t1 r c1).2 ≡ t' = ground arith in
            ap (watched f) (sym same)
            ∙ get_fd_of-watched env t1 r c1 f
            ∙ get_remote-watched env t t1 s fail c c1 (some q) f run1
      ]
    ]

acquire-watched :
    (env : Env) (t t' : Trace) (c c' : ConnsMgr) (talk talk' : Talk) (goes_on : Bool) (f : ℤ)
    → acquire env t c talk ≡ some (goes_on, talk', c', t')
    → watched f t' ≡ watched f t
unfolding acquire
acquire-watched env t t' c c' talk talk' goes_on f run = elim (Bool-cases (eqb_ℤ talk.fd (pos 0))) [
  | inr has ↦ ground arith
  | inl needs ↦ elim (Option-cases talk.service) [
    | inl missing ↦ absurd (ground arith)
    | inr (s, known) ↦ elim (Option-cases (get_fd env t s talk.fail_remotes c)) [
      | inl fault ↦ absurd (ground arith)
      | inr ((answer, ptr, c1, t1), run1) ↦
          let same : t1 ≡ t' = ground arith in
          ap (watched f) (sym same)
          ∙ get_fd-watched env t t1 s talk.fail_remotes c c1 answer ptr f run1
    ]
  ]
]

re_encode-watched :
    (env : Env) (t t' : Trace) (c c' : ConnsMgr) (r : Bool) (talk talk' : Talk) (goes_on : Bool)
    (f : ℤ)
    → re_encode env t c r talk ≡ some (goes_on, talk', c', t')
    → watched f t' ≡ watched f t
unfolding re_encode
re_encode-watched env t t' c c' r talk talk' goes_on f run = ground arith

-- What is set up without an error was registered.
abbrev pub one_if : Bool → ℕ
one_if b = if b then 1 else 0

arm-watched :
    (env : Env) (conf : Timeouts) (t t' : Trace) (c c' : ConnsMgr) (talk talk' : Talk)
    (failed : Bool) (f : ℤ)
    → arm env conf t c talk ≡ some (talk', failed, c', t')
    → watched f t + one_if (is_ok talk'.error && eqb_ℤ talk'.fd f) ≤ watched f t'
unfolding arm
arm-watched env conf t t' c c' talk talk' failed f run = ground arith

pub reset_talk-watched :
    (env : Env) (conf : Timeouts) (t t' : Trace) (c c' : ConnsMgr) (is_retry : Bool)
    (talk talk' : Talk) (failed : Bool) (f : ℤ)
    → talk.error ≡ kok
    → NotNegative talk.fd
    → reset_talk env conf t c is_retry talk ≡ some (talk', failed, c', t')
    → watched f t + one_if (is_ok talk'.error && eqb_ℤ talk'.fd f) ≤ watched f t'
unfolding reset_talk
reset_talk-watched env conf t t' c c' is_retry talk talk' failed f ok valid run =
    elim (Option-cases (acquire env t c talk)) [
      | inl fault ↦ absurd (ground arith)
      | inr ((go1, talk1, c1, t1), run1) ↦
          let same1 = acquire-watched env t t1 c c1 talk talk1 go1 f run1 in
          elim (acquire-Staged env t c talk talk1 go1 c1 t1 ok valid run1) [
            | inr (stop, bad) ↦ ground (arith, same1)
            | inl (on, ok1, valid1) ↦ elim (Option-cases (re_encode env t1 c1 is_retry talk1)) [
              | inl fault ↦ absurd (ground arith)
              | inr ((go2, talk2, c2, t2), run2) ↦
                  let same2 = re_encode-watched env t1 t2 c1 c2 is_retry talk1 talk2 go2 f run2 in
                  elim (re_encode-Staged env t1 c1 is_retry talk1 talk2 go2 c2 t2 ok1 valid1 run2) [
                    | inr (stop, bad) ↦ ground (arith, same1, same2)
                    | inl (on2, ok2, valid2) ↦
                        let last =
                          arm-watched env conf t2 t' c2 c' talk2 talk' failed f (ground arith) in
                        omega (arith, last, same1, same2)
                  ]
            ]
          ]
    ]
