-- ===== src/Agents/Affinity.antt =====
-- The way of a client: the agent that has taken it gets it back when its request is done.
use magneto.Base.{
  ℕ, zero, suc, ◌≡◌, ◌∙◌, refl, ap, subst, Bool, true, false, Bool-cases, inl, inr, ℤ, pos, negsuc,
  arith,
}
use magneto.Env.{Env, Trace, Event, ev_in, ev_out, ev_err, ev_other, add_event}
use magneto.Slave.{EventCtx}
use magneto.Slave.Clients.{
  KeepAlive, MsgReadReq, MsgNewReq, ReadReq, Place, waits, works, gone, accept, wait_for,
  handle_read_req, read_req_ret, read_on, hand_over, check_read_req,
}
use magneto.Biz.{BizProcedure, reset}
use magneto.Scheduler.{Procedure, procedure}
use magneto.Agents.{agent_of}

-- The id of the client's messages and contexts, wherever it is.
abbrev Carries : ℤ → Place → Type 0
Carries id (waits rr) = rr.id_procedure ≡ id
Carries id (works m) = m.id_procedure ≡ id
Carries id gone = Unit

wait_for-Carries :
    (env : Env) (t : Trace) (num : ℤ) (rr : ReadReq)
    → Carries rr.id_procedure (wait_for env t num rr).1
unfolding wait_for
wait_for-Carries env t num rr =
    elim (Bool-cases (env.reg_event t rr.ctx.fd add_event ev_in rr.ctx.timeleft_ms)) [
      | inl granted ↦ rw granted refl
      | inr refused ↦ rw refused tt
    ]

read_on-id :
    (env : Env) (rr : ReadReq) (out : Bool × EventCtx × Trace)
    → (read_on env rr out).1.id_procedure ≡ rr.id_procedure
unfolding read_on
read_on-id env rr (false, ctx, t) = refl
read_on-id env rr (true, ctx, t) = ground arith

read_req_ret-id :
    (env : Env) (t : Trace) (rr : ReadReq) (ret : ℤ)
    → (read_req_ret env t rr ret).1.id_procedure ≡ rr.id_procedure
unfolding read_req_ret
read_req_ret-id env t rr (pos zero) = refl
read_req_ret-id env t rr (pos (suc n)) = read_on-id env rr _
read_req_ret-id env t rr (negsuc n) = refl

hand_over-Carries :
    (env : Env) (num ret : ℤ) (rr : ReadReq) (t : Trace)
    → Carries rr.id_procedure (hand_over env num (ret, rr, t)).1
unfolding hand_over
hand_over-Carries env num (pos zero) rr t = elim (Bool-cases (env.send_to_worker t rr.ctx.fd)) [
  | inl taken ↦ rw taken refl
  | inr refused ↦ rw refused tt
]
hand_over-Carries env num (pos (suc n)) rr t = refl
hand_over-Carries env num (negsuc n) rr t = tt

handled :
    (env : Env) (t : Trace) (num : ℤ) (rr : ReadReq)
    → Carries rr.id_procedure (hand_over env num (handle_read_req env t rr)).1
unfolding handle_read_req
handled env t num rr =
    let h = handle_read_req env t rr in
    subst (λ id. Carries id (hand_over env num h).1) (read_req_ret-id env _ rr _)
      (hand_over-Carries env num h.0 h.1 h.2)

accept-Carries :
    (env : Env) (conf : KeepAlive) (t : Trace) (num : ℤ) (msg : MsgReadReq)
    → Carries msg.id_procedure (accept env conf t num msg).1
unfolding accept
accept-Carries env conf t num msg = wait_for-Carries env _ _ _

check_read_req-Carries :
    (env : Env) (t : Trace) (num : ℤ) (ev : Event) (rr : ReadReq)
    → Carries rr.id_procedure (check_read_req env t num ev rr).1
unfolding check_read_req
check_read_req-Carries env t num ev_err rr = tt
check_read_req-Carries env t num ev_in rr = handled env t num rr
check_read_req-Carries env t num ev_out rr = handled env t num rr
check_read_req-Carries env t num ev_other rr = handled env t num rr

-- The event that completes a request, after any number of events at which more was needed.
pub data Reads (env : Env) : ReadReq → MsgNewReq → Type 0 where
  completes :
      {rr : ReadReq} {m : MsgNewReq} (t t' : Trace) (num num' : ℤ) (ev : Event)
      → check_read_req env t num ev rr ≡ (num', works m, t')
      → Reads env rr m
  goes_on :
      {rr rr' : ReadReq} {m : MsgNewReq} (t t' : Trace) (num num' : ℤ) (ev : Event)
      → check_read_req env t num ev rr ≡ (num', waits rr', t')
      → Reads env rr' m
      → Reads env rr m

Reads-id :
    (env : Env) (rr : ReadReq) (m : MsgNewReq) → Reads env rr m → m.id_procedure ≡ rr.id_procedure
Reads-id env rr m (completes t t' num num' ev run) =
    subst (λ s. Carries rr.id_procedure s.1) run (check_read_req-Carries env t num ev rr)
Reads-id env rr m (goes_on {rr' = rr'} t t' num num' ev run rest) =
    Reads-id env rr' m rest
    ∙ subst (λ s. Carries rr.id_procedure s.1) run (check_read_req-Carries env t num ev rr)

-- A client that an agent has accepted, whose request was then read, however many events that took,
-- and given to a procedure, comes back to that agent: the message at the end of the procedure goes
-- to the agent to which the message with the client had gone, however many agents there are.
pub reset-agent_of :
    (env : Env) (conf : KeepAlive) (t t1 t2 : Trace) (num num1 : ℤ) (msg : MsgReadReq)
    (rr : ReadReq) (m : MsgNewReq) (this n : ℕ) (p : Procedure) (biz : BizProcedure)
    → accept env conf t num msg ≡ (num1, waits rr, t1)
    → Reads env rr m
    → biz.id_procedure ≡ (procedure m this p).id_procedure
    → agent_of (reset t2 biz).0.id_procedure n ≡ agent_of msg.id_procedure n
unfolding reset procedure
reset-agent_of env conf t t1 t2 num num1 msg rr m this n p biz taken reads same =
    ap (λ id. agent_of id n)
      (same
        ∙ Reads-id env rr m reads
        ∙ subst (λ s. Carries msg.id_procedure s.1) taken (accept-Carries env conf t num msg))
