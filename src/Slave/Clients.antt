-- ===== src/Slave/Clients.antt =====
-- src/agents/details/agent_slave.cpp, the part that serves the clients: what CheckMailbox_ does on
-- kReadReq and kDestruct, HandleReadReq_, the kReadReq cases of CheckEvents_ and CleanTimeouts_,
-- and the counter num_clients_keepalive_. src/event_ctx.h, src/msg.h.
pub mod Count
use magneto.Base.{
  ℕ, zero, suc, ◌*◌, ◌-◌, Bool, true, false, if◌then◌else◌, List, [], ◌∷◌, Option, none, some, ℤ,
  pos, negsuc, ◌-ℤ◌, ◌+ℤ◌, min_ℤ, is_pos, leb_ℤ, get_elem?, set,
}
use magneto.Model.{RemotePtr, deref, Category}
use magneto.Env.{
  Env, Trace, Effect, Event, Op, ev_in, ev_out, ev_err, ev_other, add_event, mod_event, clock,
  codec_io, codec_reset, decoded, sent, registered, unregistered, took_read, freed_read, took_ctx,
  freed_ctx, close,
}
use magneto.ConnsMgr.{ConnsMgr, free_fd}
use magneto.Slave.{EventCtx, check_timeout}

-- The values of the configuration that the clients depend on.
pub record KeepAlive : Type 0 where
  pub client_keepalive_sec : ℤ
  pub rtimeo_ms : ℤ

-- MsgReadReq: a client that a listener accepted. `listen_addr` is told by its category.
pub record MsgReadReq : Type 0 where
  pub id_procedure : ℤ
  pub fd_client : ℤ
  pub listen_addr : Category
  pub fd_client_starttime_sec : ℤ

-- An EventCtx of category kReadReq: the common part, and its part of the union.
pub record ReadReq : Type 0 where
  pub ctx : EventCtx
  pub id_procedure : ℤ
  pub fd_client_starttime_sec : ℤ
  pub protocol_read : Category

-- MsgNewReq: a request that was read, for a worker.
pub record MsgNewReq : Type 0 where
  pub id_procedure : ℤ
  pub fd_client : ℤ
  pub fd_client_starttime_sec : ℤ
  pub protocol_read : Category

-- The descriptors that a request held for its services, in one of the two stores of MsgDestruct.
pub data FdCache : Type 0 where
  small_cache big_cache : List (ℤ × RemotePtr) → FdCache

-- MsgDestruct: a worker is done with a request.
pub record MsgDestruct : Type 0 where
  pub id_procedure : ℤ
  pub fd_client : ℤ
  pub fd_client_starttime_sec : ℤ
  pub protocol_read : Category
  pub cached : FdCache

-- Where a client is after a handler: registered for reading, with a worker, or gone.
pub data Place : Type 0 where
  waits : ReadReq → Place
  works : MsgNewReq → Place
  gone : Place

-- The counter after the handler, the client's place and the calls made.
abbrev pub Served : Type 0
Served = ℤ × Place × Trace

-- CloseFdClient_, and the reader given back.
abbrev pub close_client : Trace → ℤ → ℤ → Category → Served
close_client t num fd pc = (num -ℤ pos 1, gone, freed_read pc ∷ close fd t)

-- The same for a client with a context, which is given back last.
abbrev pub drop_client : Trace → ℤ → ReadReq → Served
drop_client t num rr =
    (num -ℤ pos 1, gone, freed_ctx rr.ctx.fd ∷ freed_read rr.protocol_read ∷ close rr.ctx.fd t)

-- Registers a new context for reading, or drops the client.
unfoldable pub wait_for : Env → Trace → ℤ → ReadReq → Served
wait_for env t num rr =
    let t' = registered rr.ctx.fd add_event ev_in rr.ctx.timeleft_ms ∷ t in
    if env.reg_event t rr.ctx.fd add_event ev_in rr.ctx.timeleft_ms
    then (num, waits rr, t')
    else drop_client t' num rr

-- BuildForReadReq.
abbrev pub build_for_read_req : Env → Trace → ℤ → ℤ → ℤ → Category → ℤ → ReadReq
build_for_read_req env t fd id start pc left = record {
  ctx = record { fd = fd; timeleft_ms = left; lasttime_ms = env.now_ms t; no_talk = 0 };
  id_procedure = id;
  fd_client_starttime_sec = start;
  protocol_read = pc;
}

-- CheckMailbox_ on kReadReq.
unfoldable pub accept : Env → KeepAlive → Trace → ℤ → MsgReadReq → Served
unfolding wait_for
accept env conf t num msg =
    let t1 = codec_reset ∷ took_read msg.listen_addr ∷ t in
    let rr =
      build_for_read_req env t1 msg.fd_client msg.id_procedure msg.fd_client_starttime_sec
        msg.listen_addr conf.rtimeo_ms in
    wait_for env (took_ctx rr.ctx.fd 0 rr.ctx.lasttime_ms ∷ clock ∷ t1) (num +ℤ pos 1) rr

-- HandleReadReq_ from its call of CheckEventCtxTimeout_ on.
unfoldable pub read_on : Env → ReadReq → Bool × EventCtx × Trace → ℤ × ReadReq × Trace
read_on env rr (false, ctx, t) = (negsuc 0, rr, unregistered ctx.fd ∷ t)
read_on env rr (true, ctx, t) =
    let t' = registered ctx.fd mod_event ev_in ctx.timeleft_ms ∷ t in
    if env.reg_event t ctx.fd mod_event ev_in ctx.timeleft_ms
    then (pos 1, record rr { ctx = ctx }, t')
    else (negsuc 0, record rr { ctx = ctx }, unregistered ctx.fd ∷ t')

-- HandleReadReq_, on what `Read` returned.
unfoldable pub read_req_ret : Env → Trace → ReadReq → ℤ → ℤ × ReadReq × Trace
unfolding read_on check_timeout
read_req_ret env t rr (pos zero) =
    let ret = if env.decode t rr.protocol_read then pos 0 else negsuc 0 in
    (ret, rr, unregistered rr.ctx.fd ∷ decoded ∷ t)
read_req_ret env t rr (pos (suc n)) = read_on env rr (check_timeout env t (pos 0) rr.ctx)
read_req_ret env t rr (negsuc n) = (negsuc n, rr, unregistered rr.ctx.fd ∷ t)

unfoldable pub handle_read_req : Env → Trace → ReadReq → ℤ × ReadReq × Trace
unfolding read_req_ret
handle_read_req env t rr =
    read_req_ret env (codec_io ∷ t) rr (env.read t rr.protocol_read rr.ctx.fd)

-- BuildForNewReq.
abbrev pub build_for_new_req : ReadReq → MsgNewReq
build_for_new_req rr = record {
  id_procedure = rr.id_procedure;
  fd_client = rr.ctx.fd;
  fd_client_starttime_sec = rr.fd_client_starttime_sec;
  protocol_read = rr.protocol_read;
}

-- CheckEvents_ on kReadReq, on what HandleReadReq_ returned.
unfoldable pub hand_over : Env → ℤ → ℤ × ReadReq × Trace → Served
hand_over env num (pos zero, rr, t) =
    if env.send_to_worker t rr.ctx.fd
    then (num, works (build_for_new_req rr), freed_ctx rr.ctx.fd ∷ sent ∷ t)
    else drop_client (sent ∷ t) num rr
hand_over env num (pos (suc n), rr, t) = (num, waits rr, t)
hand_over env num (negsuc n, rr, t) = drop_client t num rr

-- CheckEvents_ on kReadReq.
unfoldable pub check_read_req : Env → Trace → ℤ → Event → ReadReq → Served
unfolding hand_over handle_read_req
check_read_req env t num ev_err rr = drop_client (unregistered rr.ctx.fd ∷ t) num rr
check_read_req env t num ev rr = hand_over env num (handle_read_req env t rr)

-- CleanTimeouts_ on kReadReq.
abbrev pub expire : Trace → ℤ → ReadReq → Served
expire t num rr = drop_client t num rr

-- The loop of HandleMsgDestruct_ over the cached descriptors.
unfoldable pub free_fds : Env → Trace → List (ℤ × RemotePtr) → ConnsMgr → Option (ConnsMgr × Trace)
unfolding free_fd
free_fds env t [] c = some (c, t)
free_fds env t ((fd, ptr) ∷ rest) c = elim (deref c.tmp_remotes ptr) [
  | none ↦ none
  | some r ↦ elim (free_fd env t r fd c) [ none ↦ none | some (c', t') ↦ free_fds env t' rest c' ]
]

abbrev pub fds_of : FdCache → List (ℤ × RemotePtr)
fds_of (small_cache fds) = fds
fds_of (big_cache fds) = fds

abbrev pub milliseconds : ℤ → ℤ
milliseconds (pos n) = pos (n * 1000)
milliseconds (negsuc n) = negsuc (suc n * 1000 - 1)

-- HandleMsgDestruct_ after that loop: how long the client may be waited for.
unfoldable pub client_timeleft_ms : Env → KeepAlive → Trace → MsgDestruct → ℤ
client_timeleft_ms env conf t msg =
    let end = msg.fd_client_starttime_sec +ℤ conf.client_keepalive_sec in
    min_ℤ (milliseconds (end -ℤ env.now_sec t +ℤ pos 1)) conf.rtimeo_ms

unfoldable pub keep_client : Env → KeepAlive → Trace → ℤ → MsgDestruct → Served
unfolding wait_for client_timeleft_ms
keep_client env conf t num msg =
    let left = client_timeleft_ms env conf t msg in
    let t1 = clock ∷ t in
    let rr =
      build_for_read_req env t1 msg.fd_client msg.id_procedure msg.fd_client_starttime_sec
        msg.protocol_read left in
    if is_pos msg.fd_client
    then if leb_ℤ left (pos 0)
      then close_client t1 num msg.fd_client msg.protocol_read
      else wait_for env (codec_reset ∷ took_ctx rr.ctx.fd 0 rr.ctx.lasttime_ms ∷ clock ∷ t1) num rr
    else (num -ℤ pos 1, gone, freed_read msg.protocol_read ∷ t)

-- HandleMsgDestruct_.
unfoldable pub handle_msg_destruct :
    Env → KeepAlive → Trace → ConnsMgr → ℤ → MsgDestruct → Option (ConnsMgr × Served)
unfolding free_fds keep_client
handle_msg_destruct env conf t c num msg = elim (free_fds env t (fds_of msg.cached) c) [
  | none ↦ none
  | some (c', t') ↦ some (c', keep_client env conf t' num msg)
]
