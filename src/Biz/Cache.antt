-- ===== src/Biz/Cache.antt =====
-- The descriptors that a request holds: in its service cache, in its talks, in its last message.
use magneto.Base.{
  ℕ, suc, ◌+◌, ◌==◌, ◌≤◌, ◌≡◌, refl, leb, true, false, if◌then◌else◌, Bool-cases, inl, inr, List,
  [], ◌∷◌, ap, map, length, Option, none, some, ℤ, negsuc, is_pos, eqb_ℤ, arith,
}
use magneto.Model.{
  bad_encode, Talk, TalkCategory, write_only, read_only, write_and_read, Service, Category,
  RemotePtr,
}
use magneto.Model.Assign.{assign, start_talk}
use magneto.Env.{freed_write, encoded, took_write, clock, Env, Trace}
use magneto.Slave.Clients.{FdCache, small_cache, big_cache, fds_of}
use magneto.Biz.{
  io_one, free_all, Exchange, ServiceCache, BizProcedure, get_fd, invalid_fd, has_fd, insert_fd,
  keep_fd, assign_talks, entries, build_for_destruct, reset,
}

abbrev pub same : ℤ → ℤ → ℕ
same f fd = if eqb_ℤ f fd then 1 else 0

-- How often a descriptor is in a cache, and in talks.
abbrev pub cached : ℤ → ServiceCache → ℕ
cached f [] = 0
cached f ((n, fd, ptr) ∷ rest) = same f fd + cached f rest

abbrev pub in_talks : ℤ → List Talk → ℕ
in_talks f [] = 0
in_talks f (talk ∷ talks) = same f talk.fd + in_talks f talks

get_fd-cached :
    (f : ℤ) (n : ℕ) (cache : ServiceCache)
    → is_pos f ≡ true
    → cached f (invalid_fd n cache) + same f (get_fd n cache).0 ≡ cached f cache
unfolding get_fd invalid_fd
get_fd-cached f n [] valid = ground arith
get_fd-cached f n ((k, fd, ptr) ∷ rest) valid = elim (Bool-cases (k == n)) [
  | inl here ↦ rw here (omega arith)
  | inr there ↦ rw there (omega (arith, get_fd-cached f n rest valid))
]

assign-fd :
    (env : Env) (t : Trace) (i : ℕ) (category : TalkCategory) (s : Option Service) (pc : Category)
    (buf : Option (List ℕ)) (timeo_ms fd : ℤ) (remote : Option RemotePtr)
    → ((u : Trace) (c : Category) (bytes : List ℕ) → env.encode u c bytes ≡ true)
    → (assign env t i category s pc buf timeo_ms fd remote).0.fd ≡ fd
unfolding assign
assign-fd env t i category s pc none timeo_ms fd remote encodes = refl
assign-fd env t i read_only s pc (some bytes) timeo_ms fd remote encodes = refl
assign-fd env t i write_only s pc (some bytes) timeo_ms fd remote encodes = rw encodes refl
assign-fd env t i write_and_read s pc (some bytes) timeo_ms fd remote encodes = rw encodes refl

-- When the codecs encode every buffer, assigning the talks of an operation moves descriptors from
-- the cache into the talks: each is as often in the cache and the talks together as it was in the
-- cache.
pub assign_talks-cached :
    (env : Env) (t : Trace) (category : TalkCategory) (timeo_ms : ℤ) (i : ℕ)
    (set : List (Service × Option (List ℕ))) (cache : ServiceCache) (f : ℤ)
    → ((u : Trace) (c : Category) (bytes : List ℕ) → env.encode u c bytes ≡ true)
    → is_pos f ≡ true
    → let out = assign_talks env t category timeo_ms i set cache in
      (cached f out.1 + in_talks f out.0 ≡ cached f cache) × (length out.0 ≡ length set)
unfolding assign_talks
assign_talks-cached env t category timeo_ms i [] cache f encodes valid = (omega arith, refl)
assign_talks-cached env t category timeo_ms i ((s, buf) ∷ rest) cache f encodes valid =
    let (fd, remote) = get_fd s.no cache in
    let t1 = (assign env t i category (some s) s.protocol_category buf timeo_ms fd remote).1 in
    let given =
      assign-fd env t i category (some s) s.protocol_category buf timeo_ms fd remote encodes in
    let later =
      assign_talks-cached env t1 category timeo_ms (suc i) rest (invalid_fd s.no cache) f encodes
        valid in
    (rw given (omega (arith, get_fd-cached f s.no cache valid, later.0)), omega (arith, later.1))

-- The descriptor of a talk that is kept for a service that has none in the cache is the one that
-- the next talk with the service gets, with its remote, which leaves the cache as it was before.
pub keep_fd-get_fd :
    (talk : Talk) (s : Service) (ptr : RemotePtr) (cache : ServiceCache)
    → talk.service ≡ some s
    → talk.remote ≡ some ptr
    → is_pos talk.fd ≡ true
    → has_fd s.no cache ≡ false
    → (cache' : ServiceCache) × (keep_fd talk cache ≡ some cache')
      × (get_fd s.no cache' ≡ (talk.fd, some ptr))
      × (invalid_fd s.no cache' ≡ cache)
unfolding keep_fd insert_fd get_fd invalid_fd
keep_fd-get_fd talk s ptr cache service remote valid absent =
    ((s.no, talk.fd, ptr) ∷ cache, ground arith, ground arith, ground arith)

-- The store in the message has room for what it holds.
abbrev pub Fits : FdCache → Type 0
Fits (small_cache fds) = length fds ≤ 15
Fits (big_cache fds) = Unit

length-entries : (cache : ServiceCache) → length (entries cache) ≡ length cache
length-entries [] = refl
length-entries ((n, fd, ptr) ∷ rest) = omega (arith, length-entries rest)

entries-map : (cache : ServiceCache) → entries cache ≡ map (λ e. (e.1, e.2)) cache
entries-map [] = refl
entries-map ((n, fd, ptr) ∷ rest) = ap (λ es. (fd, ptr) ∷ es) (entries-map rest)

-- A procedure that is done gives up its cache and its talks; the message to the agent has, in
-- whichever of its stores, the descriptor and the remote of each entry of the cache, in their order
-- and no others, and its small store is not overrun.
pub reset-entries :
    (t : Trace) (biz : BizProcedure)
    → let out = reset t biz in
      (fds_of out.0.cached ≡ map (λ e. (e.1, e.2)) biz.service_cache)
      × Fits out.0.cached
      × (out.0.fd_client ≡ biz.fd_client)
      × (out.1.service_cache ≡ [])
      × (out.1.tmp_pool_talks ≡ [])
unfolding reset build_for_destruct
reset-entries t biz = elim (Bool-cases (leb (length biz.service_cache) 15)) [
  | inl few ↦
      let room : length (entries biz.service_cache) ≤ 15 =
        ground (arith, length-entries biz.service_cache) in
      rw few (entries-map biz.service_cache, room, refl, refl, refl)
  | inr many ↦ rw many (entries-map biz.service_cache, tt, refl, refl, refl)
]

-- When no codec can encode anything, then for a talk on one service alone the descriptor that the
-- request held for it is afterwards neither in the cache nor in the talk nor closed, and the codec,
-- which has been given back, is given back again when the talks are freed.
pub io_one-unencoded :
    (env : Env) (ex : Exchange) (t : Trace) (s : Service) (bytes : List ℕ) (timeo_ms f : ℤ)
    (biz : BizProcedure)
    → ((u : Trace) (c : Category) (bs : List ℕ) → env.encode u c bs ≡ false)
    → is_pos f ≡ true
    → (get_fd s.no biz.service_cache).0 ≡ f
    → (talk : Talk) × (biz' : BizProcedure) × (io_one env ex t write_and_read s
          (some bytes)
          timeo_ms
          biz
        ≡ some (
          bad_encode,
          talk ∷ [],
          biz',
          freed_write s.protocol_category ∷ encoded ∷ took_write s.protocol_category ∷ clock ∷ t,
        ))
      × (cached f biz'.service_cache + in_talks f (talk ∷ []) + 1 ≡ cached f biz.service_cache)
      × (free_all [] (talk ∷ []) ≡ freed_write s.protocol_category ∷ [])
unfolding io_one free_all assign
io_one-unencoded env ex t s bytes timeo_ms f biz fails valid held =
    let pc = s.protocol_category in
    let (fd, remote) = get_fd s.no biz.service_cache in
    let talk =
      record (start_talk 0 write_and_read (some s) (some bytes) (env.now_ms t) timeo_ms fd remote) {
        protocol_write = some pc;
        fd = negsuc 0;
        error = bad_encode;
      } in
    let biz' = record biz {
      service_cache = invalid_fd s.no biz.service_cache;
      tmp_pool_talks = (talk ∷ []) ∷ biz.tmp_pool_talks;
    } in
    let unencoded = fails (took_write pc ∷ clock ∷ t) pc bytes in
    let left = get_fd-cached f s.no biz.service_cache valid in
    (talk, biz', rw unencoded refl, ground arith, refl)
