-- ===== src/Scheduler/Messages/Casts.antt =====
-- No cast of a scheduler fails, and its tasks are the messages that were sent.
use magneto.Base.{
  ℕ, zero, suc, ◌≡◌, refl, sym, ap, subst, ◌∙◌, true, Bool-cases, inl, inr, List, [], ◌∷◌, ◌++◌,
  append_assoc, append-nil, map, take, drop, take-append-drop, some,
}
use magneto.Scheduler.{
  Msg, config, read_req, new_req, session, destruct, k_max_task_processed_one_time,
}
use magneto.Scheduler.Messages.{
  Category, kinvalid, kconfig, kread_req, knew_req, ksession, kdestruct, eqb, Body, plain,
  config_body, read_req_body, new_req_body, session_body, destruct_body, Object, new_object, copy,
  Pools, update, get, take_in, take_all, Task, resumes, starts, bug, read_as, work_off, rounds,
}

-- The class is the one that the category names.
abbrev pub HasClass : Category → Body → Type 0
HasClass kinvalid plain = Unit
HasClass kconfig config_body = Unit
HasClass kread_req (read_req_body _) = Unit
HasClass knew_req (new_req_body _) = Unit
HasClass ksession (session_body _) = Unit
HasClass kdestruct (destruct_body _) = Unit
HasClass _ _ = ⊥

abbrev pub AllTyped : List Object → Type 0
AllTyped [] = Unit
AllTyped (o ∷ objects) = HasClass o.category o.body × AllTyped objects

abbrev pub Typed : Pools → Type 0
Typed pools = (c : Category) → AllTyped (pools c)

-- A message as it is sent, and what is to become of it.
abbrev pub object_of : Msg → Object
object_of config = record { category = kconfig; body = config_body }
object_of (read_req m) = record { category = kread_req; body = read_req_body (some m) }
object_of (new_req m) = record { category = knew_req; body = new_req_body (some m) }
object_of (session m) = record { category = ksession; body = session_body (some m) }
object_of (destruct m) = record { category = kdestruct; body = destruct_body (some m) }

abbrev pub task_of : Msg → Task
task_of (session m) = resumes m
task_of (new_req m) = starts m
task_of _ = bug

object_of-HasClass : (m : Msg) → HasClass (object_of m).category (object_of m).body
object_of-HasClass config = tt
object_of-HasClass (read_req m) = tt
object_of-HasClass (new_req m) = tt
object_of-HasClass (session m) = tt
object_of-HasClass (destruct m) = tt

get-AllTyped :
    (objects : List Object) (i : ℕ)
    → AllTyped objects
    → HasClass (get objects i).0.category (get objects i).0.body × AllTyped (get objects i).1
unfolding get
get-AllTyped [] i h = (tt, tt)
get-AllTyped (o ∷ objects) zero h = h
get-AllTyped (o ∷ objects) (suc i) (h, hs) =
    let (first, rest) = get-AllTyped objects i hs in (first, (h, rest))

update-Typed :
    (c : Category) (objects : List Object) (pools : Pools)
    → AllTyped objects
    → Typed pools
    → Typed (update c objects pools)
update-Typed c objects pools h all c' = elim (Bool-cases (eqb c c')) [
  | inl same ↦ rw same h
  | inr other ↦ rw other (all c')
]

eqb_eq : (c c' : Category) → eqb c c' ≡ true → c ≡ c'
eqb_eq kinvalid kinvalid e = refl
eqb_eq kconfig kconfig e = refl
eqb_eq kread_req kread_req e = refl
eqb_eq knew_req knew_req e = refl
eqb_eq ksession ksession e = refl
eqb_eq kdestruct kdestruct e = refl
eqb_eq c c' e = cc

-- An object of the right class takes a message over as it is.
copy-object_of :
    (m : Msg) (b : Body)
    → HasClass (object_of m).category b
    → copy (record { category = (object_of m).category; body = b }) (object_of m)
      ≡ some (object_of m)
unfolding copy
copy-object_of config config_body h = refl
copy-object_of (read_req m) (read_req_body _) h = refl
copy-object_of (new_req m) (new_req_body _) h = refl
copy-object_of (session m) (session_body _) h = refl
copy-object_of (destruct m) (destruct_body _) h = refl
copy-object_of config plain h = absurd h
copy-object_of m b h = absurd h

copy-same :
    (m : Msg) (o : Object)
    → HasClass o.category o.body
    → eqb (object_of m).category o.category ≡ true
    → copy o (object_of m) ≡ some (object_of m)
copy-same m o h e =
    let same = eqb_eq (object_of m).category o.category e in
    subst (λ c. copy (record { category = c; body = o.body }) (object_of m) ≡ some (object_of m))
      same (copy-object_of m o.body (subst (λ c. HasClass c o.body) (sym same) h))

-- The object that the switch makes is of the class that its category names.
copy-new_object :
    (m : Msg)
    → (o : Object) × (new_object (object_of m).category ≡ some o)
      × (copy o (object_of m) ≡ some (object_of m))
unfolding new_object copy
copy-new_object config = (_, refl, refl)
copy-new_object (read_req m) = (_, refl, refl)
copy-new_object (new_req m) = (_, refl, refl)
copy-new_object (session m) = (_, refl, refl)
copy-new_object (destruct m) = (_, refl, refl)

take_in-object_of :
    (pick : Pools → ℕ) (m : Msg) (pools : Pools)
    → Typed pools
    → (pools' : Pools) × (take_in pick (object_of m) pools ≡ some (object_of m, pools'))
      × Typed pools'
unfolding take_in
take_in-object_of pick m pools typed =
    let c = (object_of m).category in
    let found = get (pools c) (pick pools) in
    let (first, rest) = get-AllTyped (pools c) (pick pools) (typed c) in
    let pools' = update c found.1 pools in
    let typed' = update-Typed c found.1 pools rest typed in
    elim (Bool-cases (eqb c found.0.category)) [
      | inl same ↦ (pools', rw same (rw (copy-same m found.0 first same) refl), typed')
      | inr other ↦
          let (o, made, copied) = copy-new_object m in
          (pools', rw other (rw made (rw copied refl)), typed')
    ]

abbrev pub objects_of : List Msg → List Object
objects_of ms = map object_of ms

objects_of-append : (xs ys : List Msg) → objects_of (xs ++ ys) ≡ objects_of xs ++ objects_of ys
objects_of-append [] ys = refl
objects_of-append (x ∷ xs) ys = ap (λ os. object_of x ∷ os) (objects_of-append xs ys)

take_all-objects_of :
    (pick : Pools → ℕ) (ms waits : List Msg) (pools : Pools)
    → Typed pools
    → (pools' : Pools) × (take_all pick (objects_of ms) (objects_of waits) pools
        ≡ some (objects_of (waits ++ ms), pools'))
      × Typed pools'
unfolding take_all
take_all-objects_of pick [] waits pools typed =
    (pools, ap (λ q. some (objects_of q, pools)) (sym (append-nil waits)), typed)
take_all-objects_of pick (m ∷ ms) waits pools typed =
    let (pools1, taken, typed1) = take_in-object_of pick m pools typed in
    let (pools2, rest, typed2) = take_all-objects_of pick ms (waits ++ m ∷ []) pools1 typed1 in
    (
      pools2,
      rw (taken, take_all)
          (ap (λ q. take_all pick (objects_of ms) q pools1) (sym (objects_of-append waits (m ∷ [])))
            ∙ rest
            ∙ ap (λ q. some (objects_of q, pools2)) (append_assoc waits (m ∷ []) ms)),
      typed2,
    )

read_as-task_of : (m : Msg) → read_as (object_of m).category (object_of m).body ≡ some (task_of m)
read_as-task_of config = refl
read_as-task_of (read_req m) = refl
read_as-task_of (new_req m) = refl
read_as-task_of (session m) = refl
read_as-task_of (destruct m) = refl

work_off-objects_of :
    (n : ℕ) (ms : List Msg) (pools : Pools)
    → Typed pools
    → (pools' : Pools) × (work_off n (objects_of ms) pools
        ≡ some (map task_of (take n ms), objects_of (drop n ms), pools'))
      × Typed pools'
unfolding work_off
work_off-objects_of zero ms pools typed = (pools, refl, typed)
work_off-objects_of (suc n) [] pools typed = (pools, refl, typed)
work_off-objects_of (suc n) (m ∷ ms) pools typed =
    let c = (object_of m).category in
    let freed =
      update-Typed c (object_of m ∷ pools c) pools (object_of-HasClass m, typed c) typed in
    let (pools', rest, typed') = work_off-objects_of n ms _ freed in
    (pools', rw (read_as-task_of m, work_off) (rw rest refl), typed')

-- All messages of some rounds, in their order.
abbrev pub concat : List (List Msg) → List Msg
concat [] = []
concat (ms ∷ mss) = ms ++ concat mss

map-append : (xs ys : List Msg) → map task_of (xs ++ ys) ≡ map task_of xs ++ map task_of ys
map-append [] ys = refl
map-append (x ∷ xs) ys = ap (λ os. task_of x ∷ os) (map-append xs ys)

-- If each object in a pool is of the class that its category names, then whatever messages come
-- and whichever objects the pools give, no cast of Process_ or Copy goes to a class that the object
-- does not have, and no field is read before it was set; what is run, and then what waits, are the
-- messages that waited and came, in their order and with the fields that were sent; and the
-- objects in the pools are so again.
pub rounds-Typed :
    (pick : Pools → ℕ) (mss : List (List Msg)) (waits : List Msg) (pools : Pools)
    → Typed pools
    → (ran : List Msg) × (waits' : List Msg) × (pools' : Pools) × (rounds pick
          (map objects_of mss)
          (objects_of waits)
          pools
        ≡ some (map task_of ran, objects_of waits', pools'))
      × (ran ++ waits' ≡ waits ++ concat mss)
      × Typed pools'
unfolding rounds
rounds-Typed pick [] waits pools typed = ([], waits, pools, refl, sym (append-nil waits), typed)
rounds-Typed pick (ms ∷ mss) waits pools typed =
    let n = k_max_task_processed_one_time in
    let all = waits ++ ms in
    let (pools1, taken, typed1) = take_all-objects_of pick ms waits pools typed in
    let (pools2, worked, typed2) = work_off-objects_of n all pools1 typed1 in
    let (ran, waits', pools', others, order, typed') =
      rounds-Typed pick mss (drop n all) pools2 typed2 in
    (
      take n all ++ ran,
      waits',
      pools',
      rw taken (
          rw worked (
            rw others (
              ap (λ ts. some (ts, objects_of waits', pools'))
                (sym (map-append (take n all) ran))))),
      append_assoc (take n all) ran waits'
          ∙ ap (λ q. take n all ++ q) order
          ∙ sym (append_assoc (take n all) (drop n all) (concat mss))
          ∙ ap (λ q. q ++ concat mss) (take-append-drop n all)
          ∙ append_assoc waits ms (concat mss),
      typed',
    )
