-- ===== src/ConnsMgr/Aliasing.antt =====
-- The pointer that a weighted selection leaves in `talk.remote` points into `tmp_remotes_`, which
-- the next weighted selection of the same agent refills.
use magneto.Base.{
  ◌≡◌, ◌∙◌, ap, ◌≤◌, ◌<◌, ◌⊎◌, inl, inr, List, [], ◌∷◌, Option, none, some, get_elem?, ℕ, suc, refl,
  sym, arith, length, leb, ◌==◌, ◌%◌, ==_iff, false, Bool-cases,
}
use magneto.Model.{Remote, Service, RemotePtr, Vector, in_tmp, deref}
use magneto.Env.{Env, Trace}
use magneto.ConnsMgr.{
  ConnsMgr, get_remote_weight, not_failed, marked_weights, any_remote, refill, pick, sum64,
}

-- A weighted selection while some remote is unhealthy has refilled the vector, and a pointer into the
-- vector that it returns is one into its storage.
selected :
    (env : Env) (t t' : Trace) (s : Service) (fail : List Remote) (c c' : ConnsMgr) (g : Remote)
    (gs : List Remote) (ptr : Option RemotePtr)
    → c.unhealthy_guys ≡ g ∷ gs
    → get_remote_weight env t s fail c ≡ some (ptr, c', t')
    → c'.tmp_remotes ≡ refill env (not_failed fail s.remotes) c.tmp_remotes
unfolding get_remote_weight any_remote
selected env t t' s fail c c' g gs ptr unhealthy run =
    by_marks (marked_weights c.conns (not_failed fail s.remotes)) refl
  where
    by_marks :
        (ws : Option (List ℕ))
        → marked_weights c.conns (not_failed fail s.remotes) ≡ ws
        → c'.tmp_remotes ≡ refill env (not_failed fail s.remotes) c.tmp_remotes
    by_marks none e = absurd (ground arith)
    by_marks (some []) e = ground arith
    by_marks (some (w ∷ ws)) e = ground arith

selected-storage :
    (env : Env) (t t' : Trace) (s : Service) (fail : List Remote) (c c' : ConnsMgr) (g : Remote)
    (gs : List Remote) (storage i : ℕ)
    → c.unhealthy_guys ≡ g ∷ gs
    → get_remote_weight env t s fail c ≡ some (some (in_tmp storage i), c', t')
    → storage ≡ (refill env (not_failed fail s.remotes) c.tmp_remotes).storage
unfolding get_remote_weight any_remote
selected-storage env t t' s fail c c' g gs storage i unhealthy run =
    by_marks (marked_weights c.conns (not_failed fail s.remotes)) refl
  where
    by_pick :
        (w : ℕ) (ws : List ℕ) (j : Option ℕ)
        → marked_weights c.conns (not_failed fail s.remotes) ≡ some (w ∷ ws)
        → pick (env.rand_r t % sum64 (w ∷ ws)) 0 0 (w ∷ ws) ≡ j
        → storage ≡ (refill env (not_failed fail s.remotes) c.tmp_remotes).storage
    by_pick w ws none e f = absurd (ground arith)
    by_pick w ws (some j) e f = ground arith

    by_marks :
        (ws : Option (List ℕ))
        → marked_weights c.conns (not_failed fail s.remotes) ≡ ws
        → storage ≡ (refill env (not_failed fail s.remotes) c.tmp_remotes).storage
    by_marks none e = absurd (ground arith)
    by_marks (some []) e = absurd (ground arith)
    by_marks (some (w ∷ ws)) e = by_pick w ws _ e refl

-- A pointer from before the vector was refilled.
refilled :
    (env : Env) (rs : List Remote) (tmp : Vector) (i : ℕ)
    → ((length rs ≤ tmp.capacity)
        × (deref (refill env rs tmp) (in_tmp tmp.storage i) ≡ get_elem? rs i))
      ⊎ ((tmp.capacity < length rs) × (deref (refill env rs tmp) (in_tmp tmp.storage i) ≡ none))
refilled env rs tmp i = elim (Bool-cases (leb (length rs) tmp.capacity)) [
  | inl fits ↦ inl (ground arith, rw fits (rw ((==_iff tmp.storage tmp.storage).1 refl) refl))
  | inr grows ↦
      let moved : (tmp.storage == suc tmp.storage) ≡ false = ground arith in
      inr (ground arith, rw grows (rw moved refl))
]

-- Two weighted selections of one agent, both made while some remote is unhealthy, with nothing between
-- them that changes `tmp_remotes_`. When the first gives a pointer into this vector, it designates the
-- remote of its index among those of the first service that have not failed. After the second, if the
-- remotes of the second service that have not failed fit into the capacity of the vector, the same
-- pointer designates the one of its index among those, or is behind the last; if they do not fit, it
-- points into storage that was given up.
pub retargeted :
    (env : Env) (t1 t1' t2 t2' : Trace) (s1 s2 : Service) (fail1 fail2 : List Remote)
    (c0 c1 c2 c3 : ConnsMgr) (g1 g2 : Remote) (gs1 gs2 : List Remote) (storage i : ℕ)
    (ptr : Option RemotePtr)
    → c0.unhealthy_guys ≡ g1 ∷ gs1
    → get_remote_weight env t1 s1 fail1 c0 ≡ some (some (in_tmp storage i), c1, t1')
    → c2.tmp_remotes ≡ c1.tmp_remotes
    → c2.unhealthy_guys ≡ g2 ∷ gs2
    → get_remote_weight env t2 s2 fail2 c2 ≡ some (ptr, c3, t2')
    → (deref c1.tmp_remotes (in_tmp storage i) ≡ get_elem? (not_failed fail1 s1.remotes) i)
      × (((length (not_failed fail2 s2.remotes) ≤ c1.tmp_remotes.capacity)
            × (deref c3.tmp_remotes (in_tmp storage i) ≡ get_elem? (not_failed fail2 s2.remotes) i))
          ⊎ ((c1.tmp_remotes.capacity < length (not_failed fail2 s2.remotes))
              × (deref c3.tmp_remotes (in_tmp storage i) ≡ none)))
retargeted env t1 t1' t2 t2' s1 s2 fail1 fail2 c0 c1 c2 c3 g1 g2 gs1 gs2 storage i ptr bad1 run1
      kept bad2 run2 =
    let rs1 = not_failed fail1 s1.remotes in
    let rs2 = not_failed fail2 s2.remotes in
    let vector1 = selected env t1 t1' s1 fail1 c0 c1 g1 gs1 (some (in_tmp storage i)) bad1 run1 in
    let at : storage ≡ c1.tmp_remotes.storage =
      selected-storage env t1 t1' s1 fail1 c0 c1 g1 gs1 storage i bad1 run1
      ∙ ap (λ v. v.storage) (sym vector1) in
    let vector3 : c3.tmp_remotes ≡ refill env rs2 c1.tmp_remotes =
      selected env t2 t2' s2 fail2 c2 c3 g2 gs2 ptr bad2 run2 ∙ ap (refill env rs2) kept in
    let tmp1 = refill env rs1 c0.tmp_remotes in
    (
      rw at (rw vector1 (rw ((==_iff tmp1.storage tmp1.storage).1 refl) refl)),
      rw at (rw vector3 (refilled env rs2 c1.tmp_remotes i)),
    )
