-- ===== src/Tests/Biz.antt =====
-- A request that holds descriptor 9 for a service.
use magneto.Base.{map, ◌+◌, ◌≡◌, refl, [], ◌∷◌, length, some, true, false, pos}
use magneto.Model.{Talk, write_and_read, in_service, rapid, redis, kok, bad_encode}
use magneto.Env.{Env, freed_write, encoded, took_write, clock}
use magneto.Slave.Clients.{fds_of}
use magneto.Biz.{
  ServiceCache, BizProcedure, Exchange, get_fd, invalid_fd, has_fd, keep_fd, assign_talks, reset,
  io_one, free_all,
}
use magneto.Biz.Cache.{
  cached, in_talks, assign_talks-cached, keep_fd-get_fd, Fits, reset-entries, io_one-unencoded,
}
use magneto.Tests.World.{env, service, talk}

abbrev pub cache : ServiceCache
cache = (0, pos 9, in_service service 1) ∷ []

abbrev pub biz : BizProcedure
biz = record {
  id_procedure = pos 3;
  fd_client = pos 5;
  fd_client_starttime_sec = pos 50;
  protocol_read = rapid;
  service_cache = cache;
  tmp_pool_talks = [];
  write_back_called = false;
}

assign_talks-cached_example :
    let out =
      assign_talks env [] write_and_read (pos 500) 0 ((service, some (1 ∷ [])) ∷ []) cache in
    (cached (pos 9) out.1 + in_talks (pos 9) out.0 ≡ cached (pos 9) cache) × (length out.0 ≡ 1)
assign_talks-cached_example =
    assign_talks-cached env [] write_and_read (pos 500) 0 ((service, some (1 ∷ [])) ∷ []) cache
      (pos 9) (λ u c bytes. refl) refl

abbrev ended : Talk
ended = record talk { fd = pos 8; remote = some (in_service service 0) }

absent : has_fd service.no [] ≡ false
unfolding has_fd
absent = refl

kept_descriptor :
    (cache' : ServiceCache) × (keep_fd ended [] ≡ some cache')
    × (get_fd 0 cache' ≡ (pos 8, some (in_service service 0)))
    × (invalid_fd 0 cache' ≡ [])
kept_descriptor = keep_fd-get_fd ended service (in_service service 0) [] refl refl refl absent

reset-entries_example :
    let out = reset [] biz in
    (fds_of out.0.cached ≡ map (λ e. (e.1, e.2)) cache)
    × Fits out.0.cached
    × (out.0.fd_client ≡ pos 5)
    × (out.1.service_cache ≡ [])
    × (out.1.tmp_pool_talks ≡ [])
reset-entries_example = reset-entries [] biz

abbrev mute : Env
mute = record env { encode = λ t pc bytes. false }

abbrev exchange : Exchange
exchange = record { send_msg = λ t id talks. true; resume = λ t talks. (talks, kok, t) }

held : (get_fd service.no biz.service_cache).0 ≡ pos 9
unfolding get_fd
held = refl

io_one-unencoded_example :
    (lost : Talk) × (biz' : BizProcedure) × (io_one mute exchange [] write_and_read service
        (some (1 ∷ []))
        (pos 500)
        biz
      ≡ some (
        bad_encode,
        lost ∷ [],
        biz',
        freed_write redis ∷ encoded ∷ took_write redis ∷ clock ∷ [],
      ))
    × (cached (pos 9) biz'.service_cache + in_talks (pos 9) (lost ∷ []) + 1 ≡ cached (pos 9) cache)
    × (free_all [] (lost ∷ []) ≡ freed_write redis ∷ [])
io_one-unencoded_example =
    io_one-unencoded mute exchange [] service (1 ∷ []) (pos 500) (pos 9) biz (λ u c bytes. refl)
      refl held
