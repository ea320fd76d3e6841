-- ===== src/Tests/Conns.antt =====
-- The pools and the connection manager of a small network.
use magneto.Base.{
  ◌≤◌, ℕ, ◌≡◌, ◌⊎◌, refl, List, [], ◌∷◌, Option, none, some, arith, true, false, pos, length, ◌<◌,
  ◌%◌, ◌*◌, ◌+◌, get_elem?, replicate, leb_ℤ,
}
use magneto.Model.{Remote, Service, in_service, in_tmp, deref}
use magneto.Env.{Trace, drew, clock, checked, closed}
use magneto.Pool.{
  create, set_num_long_conns, PoolConns, get, put, update, report_status, is_healthy,
}
use magneto.Pool.Health.{IsMarked, recovers}
use magneto.Pool.Health
use magneto.Pool.Keeping.{Accounted, closes, put-Accounted, get-pooled, stale_expiry}
use magneto.ConnsMgr.{
  refill, get_fd, get_remote, get_remote_marked, pick, sum64, get_fd_of, free_fd, report,
  add_remotes, keep_conns, forget_guys, assign, erase, ConnsMgr, lookup, among, not_failed,
  marked_weights, weights, get_remote_normal, get_remote_weight, config_remotes,
}
use magneto.ConnsMgr.Weights.{Draws, sum}
use magneto.ConnsMgr.Choice.{
  get_remote_weight-healthy, get_remote_weight-marked, get_remote_normal-choice, FirstUsable,
  NoneUsable,
}
use magneto.ConnsMgr.InSync.{InSync}
use magneto.ConnsMgr.History.{run, run-InSync, step, Call, gets, frees, reports, configures}
use magneto.ConnsMgr.Aliasing.{retargeted}
use magneto.Tests.World.{env, near, far, service, pool, healthy, limping}

marked : IsMarked pool
marked = record { least = omega arith; most = omega arith }

recovers_example :
    (is_healthy (report_status false pool) ≡ false)
    × (is_healthy (Health.reports (replicate 7 true) (Health.reports (false ∷ false ∷ []) pool))
        ≡ true)
recovers_example = recovers pool (false ∷ false ∷ []) marked

put-Accounted_example : Accounted pool [] (pos 5) (put env [] (pos 5) pool)
put-Accounted_example = put-Accounted env [] (pos 5) pool refl

get-pooled_example :
    ((get env [] pool).1.fds ≡ [])
    × (((env.check_conn [] (pos 8) ≡ true)
          × ((get env [] pool).0 ≡ (pos 8, true))
          × ((get env [] pool).2 ≡ checked (pos 8) ∷ []))
        ⊎ ((env.check_conn [] (pos 8) ≡ false)
            × ((get env [] pool).0 ≡ env.connect (closed (pos 8) ∷ checked (pos 8) ∷ []) near)
            × (closes (pos 8) (get env [] pool).2 ≡ closes (pos 8) [] + 1)))
get-pooled_example = get-pooled env [] pool 7 [] refl

stale_expiry_example :
    let p' = (get env [] pool).1 in
    (p'.expiretime_sec 8 ≡ pos 60)
    × (((leb_ℤ (pos 60) (env.now_sec (clock ∷ [])) ≡ true)
          × (put env (clock ∷ []) (pos 8) p'
              ≡ some (
                record p' { expiretime_sec = update p'.expiretime_sec 8 (pos 0) },
                closed (pos 8) ∷ clock ∷ clock ∷ [],
              )))
        ⊎ ((leb_ℤ (pos 60) (env.now_sec (clock ∷ [])) ≡ false)
            × (put env (clock ∷ []) (pos 8) p'
                ≡ some (record p' { fds = pos 8 ∷ p'.fds }, clock ∷ clock ∷ []))))
stale_expiry_example = stale_expiry env [] (clock ∷ []) pool 7 [] refl refl (λ e. cc) (omega arith)

all_weights : service.weight_all ≡ sum (weights service.remotes)
unfolding weights
all_weights = refl

far_weight : marked_weights limping.conns (not_failed (near ∷ []) service.remotes) ≡ some (50 ∷ [])
unfolding marked_weights not_failed among lookup
far_weight = refl

get_remote_weight-healthy_example :
    (i : ℕ) × (r : Remote) × (get_remote_weight env [] service [] healthy
      ≡ some (some (in_service service i), healthy, drew ∷ []))
    × Draws (7 % 4) 0 (weights service.remotes) i
    × (get_elem? service.remotes i ≡ some r)
    × (0 < r.weight)
get_remote_weight-healthy_example =
    get_remote_weight-healthy env [] service [] healthy refl all_weights (omega arith) (omega arith)

get_remote_weight-marked_example :
    let c' = record limping {
      tmp_remotes = refill env (not_failed (near ∷ []) service.remotes) limping.tmp_remotes;
    } in
    (i : ℕ) × (r : Remote) × (p : PoolConns) × (get_remote_weight env [] service (near ∷ []) limping
      ≡ some (some (in_tmp c'.tmp_remotes.storage i), c', drew ∷ []))
    × (deref c'.tmp_remotes (in_tmp c'.tmp_remotes.storage i) ≡ some r)
    × (lookup r limping.conns ≡ some p)
    × (among r (near ∷ []) ≡ false)
    × (among r service.remotes ≡ true)
    × (0 < r.weight * p.health_mark)
    × Draws (7 % 50) 0 (50 ∷ []) i
get_remote_weight-marked_example =
    get_remote_weight-marked env [] service (near ∷ []) limping far [] (50 ∷ []) refl far_weight
      (omega arith) (omega arith)

get_remote_normal-choice_example :
    ((i : ℕ) × (get_remote_normal env [] service (near ∷ []) limping
        ≡ some (some (in_service service i), limping, []))
      × FirstUsable limping.unhealthy_guys (near ∷ []) service.remotes i)
    ⊎ (NoneUsable limping.unhealthy_guys (near ∷ []) service.remotes
        × (((service.remotes ≡ []) × (get_remote_normal env [] service (near ∷ []) limping ≡ none))
            ⊎ ((i : ℕ) × (i < length service.remotes)
                × (get_remote_normal env [] service (near ∷ []) limping
                    ≡ some (some (in_service service i), limping, drew ∷ [])))))
get_remote_normal-choice_example = get_remote_normal-choice env [] service (near ∷ []) limping

-- A new manager is configured, a remote fails, and a descriptor is asked for.
abbrev new_mgr : ConnsMgr
new_mgr = record {
  long_conn_keepalive_sec = pos 100;
  conns = [];
  unhealthy_guys = [];
  tmp_remotes = record { storage = 0; capacity = 0; items = [] };
}

abbrev calls : List Call
calls =
    configures (near ∷ far ∷ [])
    ∷ reports far false
    ∷ gets service (near ∷ [])
    ∷ frees far (pos 9)
    ∷ []

unfoldable after : Option (ConnsMgr × Trace)
unfolding run
after = run env calls (new_mgr, [])

abbrev or_new : Option (ConnsMgr × Trace) → ConnsMgr × Trace
or_new none = (new_mgr, [])
or_new (some st) = st

after-some : run env calls (new_mgr, []) ≡ some (or_new after)
unfolding run after step get_fd get_remote get_remote_weight get_remote_marked marked_weights
    not_failed among lookup pick sum64 get_fd_of free_fd report config_remotes add_remotes
    keep_conns forget_guys assign erase get put create set_num_long_conns report_status
after-some = refl

new_mgr-InSync : InSync new_mgr
unfolding lookup among
new_mgr-InSync = record { agree = λ r. refl }

run-InSync_example : InSync (or_new after).0
run-InSync_example =
    run-InSync env calls new_mgr [] (or_new after).0 (or_new after).1 new_mgr-InSync after-some

-- A second selection, for another service, refills `tmp_remotes_`.
abbrev second : Service
second = record service { no = 1; remotes = far ∷ near ∷ [] }

abbrev chosen : ConnsMgr
chosen = record limping { tmp_remotes = refill env (near ∷ far ∷ []) limping.tmp_remotes }

abbrev rechosen : ConnsMgr
rechosen = record chosen { tmp_remotes = refill env (far ∷ near ∷ []) chosen.tmp_remotes }

first_choice :
    get_remote_weight env [] service [] limping ≡ some (some (in_tmp 1 0), chosen, drew ∷ [])
unfolding get_remote_weight get_remote_marked marked_weights not_failed among lookup pick sum64
first_choice = refl

second_choice :
    get_remote_weight env [] second [] chosen ≡ some (some (in_tmp 1 0), rechosen, drew ∷ [])
unfolding get_remote_weight get_remote_marked marked_weights not_failed among lookup pick sum64
second_choice = refl

retargeted_example :
    (deref chosen.tmp_remotes (in_tmp 1 0) ≡ get_elem? (not_failed [] service.remotes) 0)
    × (((length (not_failed [] second.remotes) ≤ 2)
          × (deref rechosen.tmp_remotes (in_tmp 1 0) ≡ get_elem? (not_failed [] second.remotes) 0))
        ⊎ ((2 < length (not_failed [] second.remotes))
            × (deref rechosen.tmp_remotes (in_tmp 1 0) ≡ none)))
retargeted_example =
    retargeted env [] (drew ∷ []) [] (drew ∷ []) service second [] [] limping chosen chosen rechosen
      far far [] [] 1 0 (some (in_tmp 1 0)) refl first_choice refl refl second_choice

-- It was the near remote, and is now the far one.
moved :
    (deref chosen.tmp_remotes (in_tmp 1 0) ≡ some near)
    × (deref rechosen.tmp_remotes (in_tmp 1 0) ≡ some far)
moved = (refl, refl)
