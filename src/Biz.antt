-- ===== src/Biz.antt =====
-- src/biz_procedure.h, src/io_basic/details/io_basic.cpp and src/details/msg.cpp: what a request's
-- handler does between two talks. The descriptors that a request holds for its services are in its
-- service cache, a list keyed by the service's number; an agent is an `Exchange`.
pub mod Cache
pub mod Unread
use magneto.Base.{
  ℕ, suc, ◌==◌, leb, ltb, ◌&&◌, Bool, true, false, if◌then◌else◌, List, [], ◌∷◌, length, set,
  Option, none, some, ℤ, pos, negsuc, is_pos,
}
use magneto.Model.{
  Talk, TalkCategory, write_only, read_only, write_and_read, Service, Category, RemotePtr, Error,
  kok, queue_busy, is_ok,
}
use magneto.Model.Assign.{assign}
use magneto.Env.{Env, Trace, Effect, freed_write, freed_read}
use magneto.Slave.Clients.{FdCache, small_cache, big_cache, MsgDestruct}

abbrev pub ServiceCache : Type 0
ServiceCache = List (ℕ × ℤ × RemotePtr)

-- GetFdFromServiceCache: the entry is erased; descriptor 0 if there is none.
unfoldable pub get_fd : ℕ → ServiceCache → ℤ × Option RemotePtr
get_fd n [] = (pos 0, none)
get_fd n ((k, fd, ptr) ∷ rest) = if k == n then (fd, some ptr) else get_fd n rest

-- InvalidFdInServiceCache, and the erasing part of GetFdFromServiceCache. A key is there once.
unfoldable pub invalid_fd : ℕ → ServiceCache → ServiceCache
invalid_fd n [] = []
invalid_fd n ((k, fd, ptr) ∷ rest) = if k == n then rest else (k, fd, ptr) ∷ invalid_fd n rest

unfoldable pub has_fd : ℕ → ServiceCache → Bool
has_fd n [] = false
has_fd n ((k, fd, ptr) ∷ rest) = if k == n then true else has_fd n rest

-- InsertFdIntoServiceCache: a map's `insert` keeps an entry that is there.
unfoldable pub insert_fd : ℕ → ℤ → RemotePtr → ServiceCache → ServiceCache
unfolding has_fd
insert_fd n fd ptr cache = if has_fd n cache then cache else (n, fd, ptr) ∷ cache

pub record BizProcedure : Type 0 where
  pub id_procedure : ℤ
  pub fd_client : ℤ
  pub fd_client_starttime_sec : ℤ
  pub protocol_read : Category
  pub service_cache : ServiceCache
  pub tmp_pool_talks : List (List Talk)
  pub write_back_called : Bool

-- Agents::SendMsg of a set of talks, and what the agent has made of them when the coroutine is
-- resumed: the talks in their places and the error of the session's message.
pub record Exchange : Type 0 where
  pub send_msg : Trace → ℤ → List Talk → Bool
  pub resume : Trace → List Talk → List Talk × Error × Trace

-- The loop of the operations on a set of services that assigns the talks.
unfoldable pub assign_talks :
    Env
    → Trace
    → TalkCategory
    → ℤ
    → ℕ
    → List (Service × Option (List ℕ))
    → ServiceCache
    → List Talk × ServiceCache × Trace
unfolding get_fd invalid_fd assign
assign_talks env t category timeo_ms i [] cache = ([], cache, t)
assign_talks env t category timeo_ms i ((s, buf) ∷ rest) cache =
    let (fd, remote) = get_fd s.no cache in
    let (talk, t1) = assign env t i category (some s) s.protocol_category buf timeo_ms fd remote in
    let (talks, cache', t') =
      assign_talks env t1 category timeo_ms (suc i) rest (invalid_fd s.no cache) in
    (talk ∷ talks, cache', t')

-- The loop after the coroutine is resumed; `none` dereferences a null pointer.
unfoldable pub keep_fd : Talk → ServiceCache → Option ServiceCache
unfolding insert_fd invalid_fd
keep_fd talk cache = elim talk.service [
  | none ↦ none
  | some s ↦
      if is_pos talk.fd
      then elim talk.remote [ none ↦ none | some ptr ↦ some (insert_fd s.no talk.fd ptr cache) ]
      else some (invalid_fd s.no cache)
]

unfoldable pub keep_fds : List Talk → ServiceCache → Option ServiceCache
unfolding keep_fd
keep_fds [] cache = some cache
keep_fds (talk ∷ talks) cache = elim (keep_fd talk cache) [
  | none ↦ none
  | some cache' ↦ keep_fds talks cache'
]

-- What an operation returns: its error, the talks, the procedure.
abbrev pub Finished : Type 0
Finished = Option (Error × List Talk × BizProcedure × Trace)

-- From BuildForSession on: the message is sent, the agent runs the talks, and their descriptors
-- are kept. `before` are the vectors that earlier operations took.
unfoldable pub exchange : Exchange → Trace → List (List Talk) → List Talk → BizProcedure → Finished
unfolding keep_fds
exchange ex t before talks biz =
    if ex.send_msg t biz.id_procedure talks
    then (let (talks', error, t') = ex.resume t talks in
        elim (keep_fds talks' biz.service_cache) [
          | none ↦ none
          | some cache ↦ some (
            error,
            talks',
            record biz { service_cache = cache; tmp_pool_talks = talks' ∷ before },
            t',
          )
        ])
    else some (queue_busy, talks, record biz { tmp_pool_talks = talks ∷ before }, t)

-- Write assigns to `errors[i]`, after a `reserve` that makes no elements: out of bounds when the
-- caller's vector has fewer than there are services. Read and Talks resize theirs.
abbrev pub overrun : Option ℕ → ℕ → Bool
overrun none num_services = false
overrun (some num_errors) num_services = ltb num_errors num_services

-- IOBasicTPD::Write, Read and Talks on a set of services, without the results that are copied for the
-- caller. `errors` is the size of the vector that the caller of Write gives.
unfoldable pub io_set :
    Env
    → Exchange
    → Trace
    → TalkCategory
    → (errors : Option ℕ) → List (Service × Option (List ℕ))
    → ℤ
    → BizProcedure
    → Finished
unfolding assign_talks exchange
io_set env ex t category errors set timeo_ms biz =
    let (talks, cache, t1) = assign_talks env t category timeo_ms 0 set biz.service_cache in
    if overrun errors (length set) && ex.send_msg t1 biz.id_procedure talks
    then none
    else exchange ex t1 biz.tmp_pool_talks talks (record biz { service_cache = cache })

-- IOBasicTPD::Write, Read and SimpleTalk on one service. An error of `Assign` ends the call.
unfoldable pub io_one :
    Env → Exchange → Trace → TalkCategory → Service → Option (List ℕ) → ℤ → BizProcedure → Finished
unfolding get_fd invalid_fd assign exchange
io_one env ex t category s buf timeo_ms biz =
    let (fd, remote) = get_fd s.no biz.service_cache in
    let biz' = record biz { service_cache = invalid_fd s.no biz.service_cache } in
    let (talk, t1) = assign env t 0 category (some s) s.protocol_category buf timeo_ms fd remote in
    if is_ok talk.error
    then exchange ex t1 biz.tmp_pool_talks (talk ∷ []) biz'
    else some (
      talk.error,
      talk ∷ [],
      record biz' { tmp_pool_talks = (talk ∷ []) ∷ biz.tmp_pool_talks },
      t1,
    )

abbrev pub resumed_fd : List Talk → ℤ → ℤ
resumed_fd [] fd = fd
resumed_fd (talk ∷ talks) fd = if is_pos talk.fd then fd else negsuc 0

-- IOBasicTPD::WriteBack: to the client, whose descriptor is given up when the talk lost it.
unfoldable pub write_back :
    Env → Exchange → Trace → List ℕ → ℤ → BizProcedure → Error × BizProcedure × Trace
unfolding assign
write_back env ex t buf timeo_ms biz =
    let called = record biz { write_back_called = true } in
    let (talk, t1) =
      assign env t 0 write_only none biz.protocol_read (some buf) timeo_ms biz.fd_client none in
    let kept = record called { tmp_pool_talks = (talk ∷ []) ∷ biz.tmp_pool_talks } in
    if is_ok talk.error
    then if ex.send_msg t1 biz.id_procedure (talk ∷ [])
      then (let (talks', error, t') = ex.resume t1 (talk ∷ []) in
          (
            error,
            record called {
              fd_client = resumed_fd talks' biz.fd_client;
              tmp_pool_talks = talks' ∷ biz.tmp_pool_talks;
            },
            t',
          ))
      else (queue_busy, kept, t1)
    else (talk.error, kept, t1)

-- FreeTalks: the codecs of a talk, and of all talks of all vectors, latest vector first.
abbrev pub free_codecs : Trace → Talk → Trace
free_codecs t talk =
    let t1 : Trace = elim talk.protocol_write [ none ↦ t | some pc ↦ freed_write pc ∷ t ] in
    elim talk.protocol_read [ none ↦ t1 | some pc ↦ freed_read pc ∷ t1 ]

unfoldable pub free_all : Trace → List Talk → Trace
free_all t [] = t
free_all t (talk ∷ talks) = free_all (free_codecs t talk) talks

unfoldable pub free_talks : Trace → List (List Talk) → Trace
unfolding free_all
free_talks t [] = t
free_talks t (talks ∷ before) = free_all (free_talks t before) talks

abbrev pub entries : ServiceCache → List (ℤ × RemotePtr)
entries [] = []
entries ((n, fd, ptr) ∷ rest) = (fd, ptr) ∷ entries rest

-- BuildForDestruct: up to 15 entries are in the message itself.
unfoldable pub build_for_destruct : BizProcedure → MsgDestruct
build_for_destruct biz = record {
  id_procedure = biz.id_procedure;
  fd_client = biz.fd_client;
  fd_client_starttime_sec = biz.fd_client_starttime_sec;
  protocol_read = biz.protocol_read;
  cached =
      if leb (length biz.service_cache) 15
      then small_cache (entries biz.service_cache)
      else big_cache (entries biz.service_cache);
}

-- Reset_: what the agent is told, and the procedure with its talks and cache given up.
unfoldable pub reset : Trace → BizProcedure → MsgDestruct × BizProcedure × Trace
unfolding build_for_destruct free_talks
reset t biz = (
  build_for_destruct biz,
  record biz { service_cache = []; tmp_pool_talks = [] },
  free_talks t biz.tmp_pool_talks,
)
