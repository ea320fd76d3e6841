-- ===== src/Slave/Clients/Count.antt =====
-- num_clients_keepalive_ over every history of the clients of an agent.
use magneto.Base.{
  ℕ, zero, suc, ◌+◌, ◌≡◌, refl, subst, Bool-cases, Option-cases, inl, inr, List, [], ◌∷◌, Option,
  none, some, ℤ, pos, negsuc, ◌-ℤ◌, ◌+ℤ◌, is_pos, leb_ℤ, get_elem?, set, arith,
}
use magneto.Env.{Env, Trace, Event, ev_in, ev_out, ev_err, ev_other}
use magneto.ConnsMgr.{ConnsMgr}
use magneto.Slave.Clients.{
  KeepAlive, MsgReadReq, ReadReq, MsgNewReq, FdCache, MsgDestruct, Place, waits, works, gone,
  Served, wait_for, accept, hand_over, handle_read_req, check_read_req, expire, keep_client,
  client_timeleft_ms, handle_msg_destruct, fds_of, free_fds,
}

-- The clients that an agent ever had, the latest first, and what the agent counts.
pub record Clients : Type 0 where
  pub num_clients_keepalive : ℤ
  pub places : List Place
  pub conns_mgr : ConnsMgr
  pub trace : Trace

-- What happens to a client: a listener sends it, its descriptor is ready, its time is up, its
-- request is done and leaves `fd_client` and the cached descriptors.
pub data Happening : Type 0 where
  accepted : MsgReadReq → Happening
  readable : ℕ → Event → Happening
  expired : ℕ → Happening
  destructed : ℕ → ℤ → FdCache → Happening

abbrev served : ℕ → Clients → ConnsMgr → Served → Clients
served i s c (num, place, t) = record {
  num_clients_keepalive = num;
  places = set s.places i place;
  conns_mgr = c;
  trace = t;
}

abbrev message : MsgNewReq → ℤ → FdCache → MsgDestruct
message req fd cached = record {
  id_procedure = req.id_procedure;
  fd_client = fd;
  fd_client_starttime_sec = req.fd_client_starttime_sec;
  protocol_read = req.protocol_read;
  cached = cached;
}

-- `none`: the client is elsewhere, or the handler's behaviour is undefined.
unfoldable pub step : Env → KeepAlive → Happening → Clients → Option Clients
unfolding accept check_read_req handle_msg_destruct
step env conf (accepted msg) s =
    let (num, place, t) = accept env conf s.trace s.num_clients_keepalive msg in
    some (record s { num_clients_keepalive = num; places = place ∷ s.places; trace = t })
step env conf (readable i ev) s = elim (get_elem? s.places i) [
  | some (waits rr) ↦
      some (served i s s.conns_mgr (check_read_req env s.trace s.num_clients_keepalive ev rr))
  | _ ↦ none
]
step env conf (expired i) s = elim (get_elem? s.places i) [
  | some (waits rr) ↦ some (served i s s.conns_mgr (expire s.trace s.num_clients_keepalive rr))
  | _ ↦ none
]
step env conf (destructed i fd cached) s = elim (get_elem? s.places i) [
  | some (works req) ↦
      elim (handle_msg_destruct env conf s.trace s.conns_mgr s.num_clients_keepalive
        (message req fd cached)) [ none ↦ none | some (c, out) ↦ some (served i s c out) ]
  | _ ↦ none
]

unfoldable pub run : Env → KeepAlive → List Happening → Clients → Option Clients
unfolding step
run env conf [] s = some s
run env conf (h ∷ hs) s = elim (step env conf h s) [ none ↦ none | some s' ↦ run env conf hs s' ]

abbrev pub one : Place → ℕ
one gone = 0
one _ = 1

-- How many clients are not gone.
abbrev pub present : List Place → ℕ
present [] = 0
present (p ∷ ps) = one p + present ps

-- A handler that had `m` other clients leaves the counter right.
abbrev Counts : ℕ → Served → Type 0
Counts m (num, place, t) = num ≡ pos (m + one place)

wait_for-Counts :
    (env : Env) (t : Trace) (num : ℤ) (rr : ReadReq) (m : ℕ)
    → num ≡ pos (suc m)
    → Counts m (wait_for env t num rr)
unfolding wait_for ◌-ℤ◌
wait_for-Counts env t num rr m e = ground arith

accept-Counts :
    (env : Env) (conf : KeepAlive) (t : Trace) (num : ℤ) (msg : MsgReadReq) (m : ℕ)
    → num ≡ pos m
    → Counts m (accept env conf t num msg)
unfolding accept ◌+ℤ◌
accept-Counts env conf t num msg m e = wait_for-Counts env _ (num +ℤ pos 1) _ m (ground arith)

hand_over-Counts :
    (env : Env) (num : ℤ) (out : ℤ × ReadReq × Trace) (m : ℕ)
    → num ≡ pos (suc m)
    → Counts m (hand_over env num out)
unfolding hand_over ◌-ℤ◌
hand_over-Counts env num (pos zero, rr, t) m e = ground arith
hand_over-Counts env num (pos (suc n), rr, t) m e = ground arith
hand_over-Counts env num (negsuc n, rr, t) m e = ground arith

check_read_req-Counts :
    (env : Env) (t : Trace) (num : ℤ) (ev : Event) (rr : ReadReq) (m : ℕ)
    → num ≡ pos (suc m)
    → Counts m (check_read_req env t num ev rr)
unfolding check_read_req ◌-ℤ◌
check_read_req-Counts env t num ev_err rr m e = ground arith
check_read_req-Counts env t num ev_in rr m e =
    hand_over-Counts env num (handle_read_req env t rr) m e
check_read_req-Counts env t num ev_out rr m e =
    hand_over-Counts env num (handle_read_req env t rr) m e
check_read_req-Counts env t num ev_other rr m e =
    hand_over-Counts env num (handle_read_req env t rr) m e

keep_client-Counts :
    (env : Env) (conf : KeepAlive) (t : Trace) (num : ℤ) (msg : MsgDestruct) (m : ℕ)
    → num ≡ pos (suc m)
    → Counts m (keep_client env conf t num msg)
unfolding keep_client ◌-ℤ◌
keep_client-Counts env conf t num msg m e = elim (Bool-cases (is_pos msg.fd_client)) [
  | inl there ↦ elim (Bool-cases (leb_ℤ (client_timeleft_ms env conf t msg) (pos 0))) [
    | inl late ↦ simp (there, late, e) (ground arith)
    | inr early ↦ simp (there, early) (wait_for-Counts env _ num _ m e)
  ]
  | inr shut ↦ simp (shut, e) (ground arith)
]

-- Replacing a client that is present changes the count by that one.
present-set :
    (ps : List Place) (i : ℕ) (p q : Place) (k : ℕ)
    → get_elem? ps i ≡ some p
    → one p ≡ 1
    → present ps ≡ k
    → (m : ℕ) × (k ≡ suc m) × (present (set ps i q) ≡ m + one q)
present-set [] i p q k at up e = absurd (ground arith)
present-set (p0 ∷ ps) zero p q k at up e = (present ps, ground arith, ground arith)
present-set (p0 ∷ ps) (suc i) p q k at up e =
    let (m, was, now) = present-set ps i p q (present ps) at up refl in
    (one p0 + m, ground arith, ground arith)

abbrev Exact : Clients → Type 0
Exact s = s.num_clients_keepalive ≡ pos (present s.places)

-- One client is replaced by what its handler left.
served-Exact :
    (i : ℕ) (s : Clients) (c : ConnsMgr) (p : Place) (out : Served)
    → Exact s
    → get_elem? s.places i ≡ some p
    → one p ≡ 1
    → ((m : ℕ) → s.num_clients_keepalive ≡ pos (suc m) → Counts m out)
    → Exact (served i s c out)
served-Exact i s c p (num, q, t) v at up counts =
    let (m, was, now) = present-set s.places i p q (present s.places) at up refl in
    let counted = counts m (ground arith) in ground arith

some_inj {ℓ} : {A : Type ℓ} {a b : A} → some a ≡ some b → a ≡ b
some_inj e = cc

expire-Counts :
    (t : Trace) (num : ℤ) (rr : ReadReq) (m : ℕ) → num ≡ pos (suc m) → Counts m (expire t num rr)
unfolding ◌-ℤ◌
expire-Counts t num rr m e = ground arith

counted_first :
    {num : ℤ} (p : Place) (ps : List Place)
    → num ≡ pos (present ps + one p)
    → num ≡ pos (present (p ∷ ps))
counted_first p ps e = ground arith

some-Exact : (new s' : Clients) → Exact new → some new ≡ some s' → Exact s'
some-Exact new s' v e = subst Exact (some_inj e) v

destructed-Exact :
    (env : Env) (conf : KeepAlive) (i : ℕ) (s s' : Clients) (msg : MsgDestruct) (req : MsgNewReq)
    → Exact s
    → get_elem? s.places i ≡ some (works req)
    → elim (handle_msg_destruct env conf s.trace s.conns_mgr s.num_clients_keepalive msg) [
      | none ↦ none
      | some (c, out) ↦ some (served i s c out)
    ]
      ≡ some s'
    → Exact s'
unfolding handle_msg_destruct
destructed-Exact env conf i s s' msg req v at e =
    elim (Option-cases (free_fds env s.trace (fds_of msg.cached) s.conns_mgr)) [
      | inl undefined ↦ absurd (ground arith)
      | inr ((c, t), freed) ↦
          let out = keep_client env conf t s.num_clients_keepalive msg in
          some-Exact (served i s c out) s'
            (served-Exact i s c (works req) out v at refl
              (keep_client-Counts env conf t s.num_clients_keepalive msg))
            (ground arith)
    ]

step-Exact :
    (env : Env) (conf : KeepAlive) (h : Happening) (s s' : Clients)
    → Exact s
    → step env conf h s ≡ some s'
    → Exact s'
unfolding step
step-Exact env conf (accepted msg) s s' v e =
    let counted = accept-Counts env conf s.trace s.num_clients_keepalive msg (present s.places) v in
    some-Exact _ s'
      (counted_first (accept env conf s.trace s.num_clients_keepalive msg).1 s.places counted) e
step-Exact env conf (readable i ev) s s' v e = elim (Option-cases (get_elem? s.places i)) [
  | inl outside ↦ absurd (ground arith)
  | inr (waits rr, at) ↦
      let out = check_read_req env s.trace s.num_clients_keepalive ev rr in
      some-Exact (served i s s.conns_mgr out) s'
        (served-Exact i s s.conns_mgr (waits rr) out v at refl
          (check_read_req-Counts env s.trace s.num_clients_keepalive ev rr))
        (ground arith)
  | inr (works req, at) ↦ absurd (ground arith)
  | inr (gone, at) ↦ absurd (ground arith)
]
step-Exact env conf (expired i) s s' v e = elim (Option-cases (get_elem? s.places i)) [
  | inl outside ↦ absurd (ground arith)
  | inr (waits rr, at) ↦
      let out = expire s.trace s.num_clients_keepalive rr in
      some-Exact (served i s s.conns_mgr out) s'
        (served-Exact i s s.conns_mgr (waits rr) out v at refl
          (expire-Counts s.trace s.num_clients_keepalive rr))
        (ground arith)
  | inr (works req, at) ↦ absurd (ground arith)
  | inr (gone, at) ↦ absurd (ground arith)
]
step-Exact env conf (destructed i fd cached) s s' v e = elim (Option-cases (get_elem? s.places i)) [
  | inl outside ↦ absurd (ground arith)
  | inr (waits rr, at) ↦ absurd (ground arith)
  | inr (works req, at) ↦
      destructed-Exact env conf i s s' (message req fd cached) req v at (ground arith)
  | inr (gone, at) ↦ absurd (ground arith)
]

-- If an agent's counter of clients is the number of its clients that are not gone, it is so after
-- every history of accepted clients, events, timeouts and finished requests.
pub run-Exact :
    (env : Env) (conf : KeepAlive) (hs : List Happening) (s s' : Clients)
    → s.num_clients_keepalive ≡ pos (present s.places)
    → run env conf hs s ≡ some s'
    → s'.num_clients_keepalive ≡ pos (present s'.places)
unfolding run
run-Exact env conf [] s s' v e = ground arith
run-Exact env conf (h ∷ hs) s s' v e = elim (Option-cases (step env conf h s)) [
  | inl undefined ↦ absurd (ground arith)
  | inr (s1, first) ↦
      run-Exact env conf hs s1 s' (step-Exact env conf h s s1 v first) (ground arith)
]
