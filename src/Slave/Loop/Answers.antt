-- ===== src/Slave/Loop/Answers.antt =====
-- The loops of an agent: a message that asks for a session is answered once.
use magneto.Base.{
  ap, ℕ, zero, suc, ◌+◌, ◌==◌, ◌≡◌, refl, subst, Bool, true, false, Bool-cases, Option-cases, inl,
  inr, if◌then◌else◌, List, [], ◌∷◌, ◌++◌, some, some_inj, bind-some, arith,
}
use magneto.Env.{Env, Event}
use magneto.Session.{Session, reset}
use magneto.Model.{Error, kok, partial, broken}
use magneto.Slave.{EventCtx, check_session, time_out}
use magneto.ConnsMgr.{config_remotes}
use magneto.Slave.Clients.{accept, check_read_req, expire, handle_msg_destruct}
use magneto.Scheduler.{Msg, config, read_req, new_req, session, destruct, MsgSession}
use magneto.Slave.Loop.{
  Settings, Running, Agent, find_session, free_session, update_session, settle, session_event,
  session_timeout, serve, Ready, session_ready, client_ready, mailbox_ready, check_events, Late,
  session_late, client_late, clean_timeouts, start_session, on_mail, k_max_num_mails_processed_once,
  check_mailbox, Round, round, process,
}

-- How often a procedure is named in a list of messages, and in the sessions under way.
abbrev pub named : ℕ → List MsgSession → ℕ
named p [] = 0
named p (m ∷ ms) = (if m.biz_procedure == p then 1 else 0) + named p ms

abbrev pub under_way : ℕ → List Running → ℕ
under_way p [] = 0
under_way p (r ∷ rs) = (if r.msg.biz_procedure == p then 1 else 0) + under_way p rs

-- How often a procedure asks for a session in a list of mails.
abbrev pub asks : ℕ → List Msg → ℕ
asks p [] = 0
asks p (session m ∷ mails) = (if m.biz_procedure == p then 1 else 0) + asks p mails
asks p (_ ∷ mails) = asks p mails

-- How often a procedure was answered, or has a session under way.
abbrev pub served : ℕ → Agent → ℕ
served p a = named p a.answers + under_way p a.sessions

-- What waits in the mailbox counts too.
abbrev pub known : ℕ → Agent → ℕ
known p a = served p a + asks p a.mailbox

-- The requests for sessions in the mails of a number of rounds.
abbrev pub asked : ℕ → List Round → ℕ
asked p [] = 0
asked p (r ∷ rounds) = asks p r.mails + asked p rounds

-- `k` more requests of `p` were taken up, and the mailbox was left alone.
abbrev Took : (ℕ → ℕ) → Agent → Agent → Type 0
Took k a a' = ((p : ℕ) → served p a' ≡ served p a + k p) × (a'.mailbox ≡ a.mailbox)

find-free :
    (k p : ℕ) (rs : List Running) (r : Running)
    → find_session k rs ≡ some r
    → under_way p rs ≡ (if r.msg.biz_procedure == p then 1 else 0) + under_way p (free_session k rs)
unfolding find_session free_session
find-free k p [] r e = absurd (ground arith)
find-free k p (r0 ∷ rs) r e = elim (Bool-cases (r0.object == k)) [
  | inl found ↦ let same : r0 ≡ r = ground arith in rw (found, same) refl
  | inr later ↦ ground (arith, find-free k p rs r (ground arith))
]

under_way-update :
    (k p : ℕ) (s : Session) (rs : List Running)
    → under_way p (update_session k s rs) ≡ under_way p rs
unfolding update_session
under_way-update k p s [] = refl
under_way-update k p s (r ∷ rs) = ground (arith, under_way-update k p s rs)

asks-append : (p : ℕ) (xs ys : List Msg) → asks p (xs ++ ys) ≡ asks p xs + asks p ys
asks-append p [] ys = omega arith
asks-append p (session m ∷ xs) ys = omega (arith, asks-append p xs ys)
asks-append p (config ∷ xs) ys = asks-append p xs ys
asks-append p (read_req m ∷ xs) ys = asks-append p xs ys
asks-append p (new_req m ∷ xs) ys = asks-append p xs ys
asks-append p (destruct m ∷ xs) ys = asks-append p xs ys

-- From an agent `a0` on, of which `n` requests were taken up.
module _ (n : ℕ → ℕ) (a0 : Agent) where
  settle-Took :
      (k : ℕ) (r : Running) (over : Bool) (s : Session) (e : Error) (a : Agent)
      → find_session k a.sessions ≡ some r
      → Took n a0 a
      → Took n a0 (settle k r over s e a)
  unfolding settle
  settle-Took k r true s e a found h =
      (λ p. omega (arith, h.0 p, find-free k p a.sessions r found), h.1)
  settle-Took k r false s e a found h =
      (λ p. omega (arith, h.0 p, under_way-update k p s a.sessions), h.1)

  session_event-Took :
      (env : Env) (conf : Settings) (k : ℕ) (ev : Event) (ctx : EventCtx) (a a' : Agent)
      → session_event env conf k ev ctx a ≡ some a'
      → Took n a0 a
      → Took n a0 a'
  unfolding session_event
  session_event-Took env conf k ev ctx a a' run h =
      elim (Option-cases (find_session k a.sessions)) [
        | inl dangling ↦ absurd (ground arith)
        | inr (r, found) ↦
            elim (Option-cases
              (check_session env conf.timeouts a.trace a.conns_mgr r.state ev ctx)) [
                | inl fault ↦ absurd (ground arith)
                | inr ((over, s, ctx', c, t), done) ↦
                    let a1 : Agent = record a { conns_mgr = c; trace = t } in
                    let same : settle k r over s (if s.has_failure then partial else kok) a1 ≡ a' =
                      ground arith in
                    subst (Took n a0) same (settle-Took k r over s _ a1 found h)
              ]
      ]

  session_timeout-Took :
      (env : Env) (conf : Settings) (k : ℕ) (ctx : EventCtx) (a a' : Agent)
      → session_timeout env conf k ctx a ≡ some a'
      → Took n a0 a
      → Took n a0 a'
  unfolding session_timeout
  session_timeout-Took env conf k ctx a a' run h = elim (Option-cases (find_session k a.sessions)) [
    | inl dangling ↦ absurd (ground arith)
    | inr (r, found) ↦
        elim (Option-cases (time_out env conf.timeouts a.trace a.conns_mgr r.state ctx)) [
          | inl fault ↦ absurd (ground arith)
          | inr ((over, s, c, t), done) ↦
              let a1 : Agent = record a { conns_mgr = c; trace = t } in
              let same : settle k r over s partial a1 ≡ a' = ground arith in
              subst (Took n a0) same (settle-Took k r over s partial a1 found h)
        ]
  ]

  check_events-Took :
      (env : Env) (conf : Settings) (ready : List Ready) (a a' : Agent)
      → check_events env conf ready a ≡ some a'
      → Took n a0 a
      → Took n a0 a'
  unfolding check_events
  check_events-Took env conf [] a a' run h = subst (Took n a0) (some_inj run) h
  check_events-Took env conf (session_ready k ev ctx ∷ rest) a a' run h =
      elim (Option-cases (session_event env conf k ev ctx a)) [
        | inl fault ↦ absurd (ground arith)
        | inr (a1, e) ↦
            check_events-Took env conf rest a1 a' (ground arith)
              (session_event-Took env conf k ev ctx a a1 e h)
      ]
  check_events-Took env conf (client_ready ev rr ∷ rest) a a' run h =
      check_events-Took env conf rest
        (serve (check_read_req env a.trace a.num_clients_keepalive ev rr) a) a' run h
  check_events-Took env conf (mailbox_ready ∷ rest) a a' run h =
      check_events-Took env conf rest a a' run h

  clean_timeouts-Took :
      (env : Env) (conf : Settings) (late : List Late) (a a' : Agent)
      → clean_timeouts env conf late a ≡ some a'
      → Took n a0 a
      → Took n a0 a'
  unfolding clean_timeouts
  clean_timeouts-Took env conf [] a a' run h = subst (Took n a0) (some_inj run) h
  clean_timeouts-Took env conf (session_late k ctx ∷ rest) a a' run h =
      elim (Option-cases (session_timeout env conf k ctx a)) [
        | inl fault ↦ absurd (ground arith)
        | inr (a1, e) ↦
            clean_timeouts-Took env conf rest a1 a' (ground arith)
              (session_timeout-Took env conf k ctx a a1 e h)
      ]
  clean_timeouts-Took env conf (client_late rr ∷ rest) a a' run h =
      clean_timeouts-Took env conf rest (serve (expire a.trace a.num_clients_keepalive rr) a) a' run
        h

  start_session-Took :
      (env : Env) (conf : Settings) (m : MsgSession) (a a' : Agent)
      → start_session env conf m a ≡ some a'
      → Took n a0 a
      → Took (λ p. n p + asks p (session m ∷ [])) a0 a'
  unfolding start_session
  start_session-Took env conf m a a' run h =
      elim (Option-cases (reset env conf.timeouts a.trace a.conns_mgr m.talks)) [
        | inl fault ↦ absurd (ground arith)
        | inr ((true, s, c, t), done) ↦
            let a1 : Agent = record a {
              conns_mgr = c;
              trace = t;
              next_object = suc a.next_object;
              sessions = record { object = a.next_object; msg = m; state = s } ∷ a.sessions;
            } in
            let same : a1 ≡ a' = ground arith in
            subst (Took (λ p. n p + asks p (session m ∷ [])) a0) same
              (λ p. omega (arith, h.0 p), h.1)
        | inr ((false, s, c, t), done) ↦
            let a1 : Agent = record a {
              conns_mgr = c;
              trace = t;
              next_object = suc a.next_object;
              answers = record m { talks = s.talks; error = broken } ∷ a.answers;
            } in
            let same : a1 ≡ a' = ground arith in
            subst (Took (λ p. n p + asks p (session m ∷ [])) a0) same
              (λ p. omega (arith, h.0 p), h.1)
      ]

  -- A mail of another category asks for nothing.
  Took-none :
      (k : ℕ → ℕ)
      → ((p : ℕ) → k p ≡ 0)
      → (a a' : Agent) → a ≡ a'
      → Took n a0 a
      → Took (λ p. n p + k p) a0 a'
  Took-none k zero_k a a' same h =
      subst (Took (λ p. n p + k p) a0) same (λ p. omega (arith, h.0 p, zero_k p), h.1)

  on_mail-Took :
      (env : Env) (conf : Settings) (m : Msg) (a a' : Agent)
      → on_mail env conf m a ≡ some a'
      → Took n a0 a
      → Took (λ p. n p + asks p (m ∷ [])) a0 a'
  unfolding on_mail
  on_mail-Took env conf config a a' run h =
      Took-none (λ p. asks p (config ∷ [])) (λ p. refl)
        (record a { conns_mgr = config_remotes (conf.remotes a.trace) a.conns_mgr }) a'
        (some_inj run) h
  on_mail-Took env conf (session m) a a' run h = start_session-Took env conf m a a' run h
  on_mail-Took env conf (read_req m) a a' run h =
      Took-none (λ p. asks p (read_req m ∷ [])) (λ p. refl)
        (serve (accept env conf.keep_alive a.trace a.num_clients_keepalive m) a) a' (some_inj run) h
  on_mail-Took env conf (new_req m) a a' run h =
      Took-none (λ p. asks p (new_req m ∷ [])) (λ p. refl) a a' (some_inj run) h
  on_mail-Took env conf (destruct m) a a' run h =
      elim (Option-cases
        (handle_msg_destruct env conf.keep_alive a.trace a.conns_mgr a.num_clients_keepalive m)) [
          | inl fault ↦ absurd (ground arith)
          | inr ((c, done), gave) ↦
              let same : serve done (record a { conns_mgr = c }) ≡ a' = ground arith in
              Took-none (λ p. asks p (destruct m ∷ [])) (λ p. refl)
                (serve done (record a { conns_mgr = c })) a' same h
        ]

check_mailbox-known :
    (n : ℕ → ℕ) (a0 : Agent) (env : Env) (conf : Settings) (left : ℕ) (mails : List Msg)
    (a a' : Agent)
    → check_mailbox env conf left mails a ≡ some a'
    → Took n a0 a
    → (p : ℕ) → known p a' ≡ served p a0 + n p + asks p mails
unfolding check_mailbox
check_mailbox-known n a0 env conf zero mails a a' run h p =
    subst (λ x. known p x ≡ served p a0 + n p + asks p mails) (some_inj run) (omega (arith, h.0 p))
check_mailbox-known n a0 env conf (suc left) [] a a' run h p =
    subst (λ x. known p x ≡ served p a0 + n p + asks p []) (some_inj run) (omega (arith, h.0 p))
check_mailbox-known n a0 env conf (suc left) (m ∷ mails) a a' run h p =
    elim (Option-cases (on_mail env conf m a)) [
      | inl fault ↦ absurd (ground arith)
      | inr (a1, e) ↦
          let later =
            check_mailbox-known (λ p. n p + asks p (m ∷ [])) a0 env conf left mails a1 a'
              (ground arith) (on_mail-Took n a0 env conf m a a1 e h) p in
          omega (arith, later, asks-append p (m ∷ []) mails)
    ]

round-known :
    (env : Env) (conf : Settings) (r : Round) (a a' : Agent) (p : ℕ)
    → round env conf r a ≡ some a'
    → known p a' ≡ known p a + asks p r.mails
unfolding round
round-known env conf r a a' p run =
    let (a1, e1, run1) = bind-some (check_events env conf r.ready a) _ a' run in
    let (a2, e2, run2) = bind-some (clean_timeouts env conf r.late a1) _ a' run1 in
    let start : Took (λ p. 0) a a = (λ p. omega arith, refl) in
    let took =
      clean_timeouts-Took (λ p. 0) a env conf r.late a1 a2 e2
        (check_events-Took (λ p. 0) a env conf r.ready a a1 e1 start) in
    let all =
      check_mailbox-known (λ p. 0) a env conf k_max_num_mails_processed_once (a2.mailbox ++ r.mails)
        a2 a' run2 took p in
    omega (arith, all, asks-append p a2.mailbox r.mails, ap (asks p) took.1)

-- Whatever events, timeouts and mails an agent gets, and in whatever order, as long as this does
-- not end in undefined behaviour: how often a procedure has been answered, has a session under way
-- or asks for one in the mailbox, together, is what it was at the start and once more for each
-- message that came from it and asks for a session. So each such message is answered to its procedure
-- once, or has its session under way, or waits in the mailbox, and nothing else is answered.
pub process-known :
    (env : Env) (conf : Settings) (rounds : List Round) (a a' : Agent) (p : ℕ)
    → process env conf rounds a ≡ some a'
    → known p a' ≡ known p a + asked p rounds
unfolding process
process-known env conf [] a a' p run =
    subst (λ x. known p x ≡ known p a + 0) (some_inj run) (omega arith)
process-known env conf (r ∷ rounds) a a' p run = elim (Option-cases (round env conf r a)) [
  | inl fault ↦ absurd (ground arith)
  | inr (a1, e) ↦
      let later = process-known env conf rounds a1 a' p (ground arith) in
      omega (arith, later, round-known env conf r a a1 p e)
]
