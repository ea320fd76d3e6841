-- ===== src/Tests/World.antt =====
-- A small network: two remotes of one service, and calls that succeed except where a run says
-- otherwise.
use magneto.Base.{codes, [], ◌∷◌, none, some, pos, negsuc, true, false, eqb_ℤ, not}
use magneto.Model.{Remote, Service, redis, weighted, Talk, write_and_read, kok, kwrite}
use magneto.Env.{Env}
use magneto.Pool.{PoolConns}
use magneto.ConnsMgr.{ConnsMgr}
use magneto.Session.{Timeouts}

-- Descriptor 8 fails its check, and a connection gets descriptor 9.
abbrev pub env : Env
env = record {
  now_ms = λ t. pos 1000;
  now_sec = λ t. pos 50;
  rand_r = λ t. 7;
  grown = λ c n. n;
  check_conn = λ t fd. not (eqb_ℤ fd (pos 8));
  connect = λ t r. (pos 9, false);
  reg_event = λ t fd op ev left. true;
  encode = λ t pc bytes. true;
  write = λ t pc fd. pos 0;
  read = λ t pc fd. negsuc 0;
  decode = λ t pc. true;
  send_to_worker = λ t fd. true;
}

abbrev pub near : Remote
near = record {
  ip = 1;
  port = 80;
  weight = 3;
  long_conns = 2;
  ctimeo_ms = pos 10;
  rtimeo_ms = pos 20;
  wtimeo_ms = pos 30;
}

abbrev pub far : Remote
far = record near { ip = 2; weight = 1 }

abbrev pub service : Service
service = record {
  no = 0;
  name = codes "cache";
  protocol_category = redis;
  service_strategy = weighted;
  remotes = near ∷ far ∷ [];
  weight_all = 4;
  retry = 1;
}

abbrev pub pool : PoolConns
pool = record {
  remote = near;
  long_conn_keepalive_sec = pos 100;
  health_mark = 100;
  fds = pos 8 ∷ [];
  expiretime_sec = λ fd. pos 60;
}

-- All is well; then the far remote has failed once.
abbrev pub healthy : ConnsMgr
healthy = record {
  long_conn_keepalive_sec = pos 100;
  conns = (near, pool) ∷ (far, record pool { remote = far }) ∷ [];
  unhealthy_guys = [];
  tmp_remotes = record { storage = 0; capacity = 0; items = [] };
}

abbrev pub limping : ConnsMgr
limping = record healthy {
  conns = (near, pool) ∷ (far, record pool { remote = far; health_mark = 50 }) ∷ [];
  unhealthy_guys = far ∷ [];
}

abbrev pub conf : Timeouts
conf = record {
  ctimeo_ms = pos 10;
  wtimeo_ms = pos 10;
  rtimeo_ms = pos 10;
  client_keepalive_sec = pos 60;
}

abbrev pub talk : Talk
talk = record {
  no_talk = 0;
  category = write_and_read;
  service = some service;
  buf = some (1 ∷ []);
  protocol_write = some redis;
  protocol_read = some redis;
  starttime_ms = pos 1000;
  endtime_ms = pos 1500;
  status = kwrite;
  error = kok;
  fail_remotes = [];
  retry = 1;
  fd = pos 0;
  remote = none;
}
