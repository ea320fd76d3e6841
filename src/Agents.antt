-- ===== src/Agents.antt =====
-- src/agents/agents.h: the agents, told by their indices, and src/agents/details/agent_master.cpp:
-- the events of listening descriptors. The mailboxes of the agents and the system's calls are
-- given by `Outside`. `none` is a division by zero.
pub mod Sending
pub mod Accepting
pub mod Affinity
use magneto.Base.{
  ℕ, zero, suc, ◌+◌, ◌%◌, ◌^◌, Bool, true, false, if◌then◌else◌, List, [], ◌∷◌, Option, none, some,
  ℤ, pos, negsuc, ◌+ℤ◌, ltb_ℤ, eqb_ℤ, is_pos,
}
use magneto.Model.{Category}
use magneto.Env.{Event, ev_in}
use magneto.Socket.{to_int32, to_unsigned}
use magneto.Slave.Clients.{MsgReadReq}
use magneto.Scheduler.{Msg, read_req}

-- What the agents and the master do to the rest: a client is accepted, a descriptor is closed, a
-- message is offered to the mailbox of an agent, which takes it or not.
pub data Effect : Type 0 where
  accepted closed : ℤ → Effect
  sent : ℕ → Msg → Bool → Effect

-- The mailboxes, `accept`, the counters of the agents, `rand_r` and the clock.
pub record Outside : Type 0 where
  pub takes : List Effect → ℕ → Msg → Bool
  pub accept : List Effect → ℤ → ℤ
  pub num_clients_keepalive : List Effect → List ℤ
  pub random : List Effect → ℤ
  pub now_sec : List Effect → ℤ

-- `id % agent_slaves_.size()`: an `int` modulo a `size_t` is taken in 64 bits.
abbrev pub agent_of : ℤ → ℕ → Option ℕ
agent_of id zero = none
agent_of id (suc n) = some (to_unsigned 64 id % suc n)

-- Agents::SendMsg, for `n` agents; the effects are latest first.
unfoldable pub send_msg : Outside → ℕ → ℤ → Msg → List Effect → Option (Bool × List Effect)
send_msg o n id m t = elim (agent_of id n) [
  | none ↦ none
  | some i ↦ some (o.takes t i m, sent i m (o.takes t i m) ∷ t)
]

-- SendMsgWithRetry, on fuel: the first attempt and the ones of the loop are the same.
unfoldable pub send_msg_with_retry : Outside → ℕ → ℕ → ℤ → Msg → List Effect → Option (List Effect)
unfolding send_msg
send_msg_with_retry o zero n id m t = none
send_msg_with_retry o (suc fuel) n id m t = elim (send_msg o n id m t) [
  | none ↦ none
  | some (true, t') ↦ some t'
  | some (false, t') ↦ send_msg_with_retry o fuel n id m t'
]

-- BroadcastWithRetry, from the agent with index `i`, with `left` agents to go.
unfoldable pub broadcast_with_retry :
    Outside → ℕ → ℕ → ℕ → ℕ → Msg → List Effect → Option (List Effect)
unfolding send_msg_with_retry
broadcast_with_retry o fuel n i zero m t = some t
broadcast_with_retry o fuel n i (suc left) m t =
    elim (send_msg_with_retry o fuel n (to_int32 i) m t) [
      | none ↦ none
      | some t' ↦ broadcast_with_retry o fuel n (suc i) left m t'
    ]

-- ClientsNotFull; the sum is an `int`, which does not overflow for the counters of open clients.
abbrev pub sum_ℤ : List ℤ → ℤ
sum_ℤ [] = pos 0
sum_ℤ (x ∷ xs) = x +ℤ sum_ℤ xs

unfoldable pub clients_not_full : List ℤ → ℤ → Bool
clients_not_full counters max_num = ltb_ℤ (sum_ℤ counters) max_num

-- MsgReadReq::BuildForReadReq, with the default of its last argument.
abbrev pub build_for_read_req : Outside → List Effect → ℤ → Category → MsgReadReq
build_for_read_req o t fd listen_addr = record {
  id_procedure = o.random t;
  fd_client = fd;
  listen_addr = listen_addr;
  fd_client_starttime_sec = o.now_sec t;
}

-- The label ERROR_HANDLE of CheckEvents_.
abbrev pub give_up : ℤ → List Effect → List Effect
give_up fd t = if is_pos fd then closed fd ∷ t else t

-- The case kListen of CheckEvents_, once a client was accepted.
unfoldable pub admit : Outside → ℕ → ℤ → Category → ℤ → List Effect → Option (List Effect)
unfolding clients_not_full send_msg
admit o n max_num addr fd t =
    if clients_not_full (o.num_clients_keepalive t) max_num
    then (let m = build_for_read_req o t fd addr in
        elim (send_msg o n m.id_procedure (read_req m) t) [
          | none ↦ none
          | some (true, t') ↦ some t'
          | some (false, t') ↦ some (give_up fd t')
        ])
    else some (closed fd ∷ t)

-- The case kListen: `Accept` tells an error by -1.
unfoldable pub check_listen :
    Outside → ℕ → ℤ → Event → ℤ → Category → List Effect → Option (List Effect)
unfolding admit
check_listen o n max_num ev_in listen_fd addr t =
    let fd = o.accept t listen_fd in
    if eqb_ℤ fd (negsuc 0) then some t else admit o n max_num addr fd (accepted fd ∷ t)
check_listen o n max_num _ listen_fd addr t = some t

-- The loop of CheckEvents_ over the events that are ready.
unfoldable pub check_events :
    Outside → ℕ → ℤ → List (Event × ℤ × Category) → List Effect → Option (List Effect)
unfolding check_listen
check_events o n max_num [] t = some t
check_events o n max_num ((ev, fd, addr) ∷ rest) t = elim (check_listen o n max_num ev fd addr t) [
  | none ↦ none
  | some t' ↦ check_events o n max_num rest t'
]
