-- ===== src/Tests/Facade.antt =====
-- A handler that talks to a set with two services.
use magneto.Base.{ℕ, ◌≡◌, refl, List, [], ◌∷◌, Option, none, some, pos, codes, true}
use magneto.Conf.{get_service_names, get_services_set, lookup_tag}
use magneto.Biz.{Exchange, io_set, assign_talks}
use magneto.Facade.Sets.{writes, set_call}
use magneto.Facade.{write_set, with_bufs}
use magneto.Tests.World.{env}
use magneto.Tests.Biz.{biz}
use magneto.Tests.Conf.{taken}
use magneto.Model.{kok}

abbrev both : List (List ℕ)
both = codes "cache" ∷ codes "cache" ∷ []

known : get_service_names taken (codes "all") ≡ some both
unfolding get_service_names lookup_tag
known = refl

-- An agent that finishes no talk.
abbrev idle : Exchange
idle = record { send_msg = λ t id talks. true; resume = λ t talks. (talks, kok, t) }

abbrev bufs : List (Option (List ℕ))
bufs = some (1 ∷ []) ∷ some (2 ∷ []) ∷ []

-- Write into a vector `errors` that is empty.
short_write : set_call env idle [] taken (some biz) (writes bufs 0) (codes "all") (pos 500) ≡ none
unfolding write_set with_bufs io_set assign_talks get_services_set lookup_tag
short_write = refl
