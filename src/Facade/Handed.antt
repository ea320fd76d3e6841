-- ===== src/Facade/Handed.antt =====
-- The talks that MagnetoBase::Write, Read and Talks hand to the agent for a set of services.
use magneto.Base.{
  ℕ, suc, ◌∙◌, ◌<◌, ◌≡◌, refl, sym, ap, subst, bind-some, some_inj, Option-cases, inl, inr, List,
  [], ◌∷◌, length, replicate, Option, none, some, ℤ, arith,
}
use magneto.Model.{
  Talk, TalkCategory, write_only, read_only, write_and_read, Service, Category, RemotePtr,
}
use magneto.Model.Assign.{assign}
use magneto.Env.{Env, Trace}
use magneto.Conf.Names.{service_names}
use magneto.Biz.{ServiceCache, assign_talks, get_fd, invalid_fd}
use magneto.Facade.{with_bufs, without_bufs}

-- One talk for each name, in order, with its buffer and the operation's category.
abbrev pub For : TalkCategory → List (List ℕ) → List (Option (List ℕ)) → List Talk → Type 0
For category [] bufs [] = Unit
For category (name ∷ names) (buf ∷ bufs) (talk ∷ talks) =
    ((s : Service) × (talk.service ≡ some s) × (s.name ≡ name))
    × (talk.buf ≡ buf)
    × (talk.category ≡ category)
    × For category names bufs talks
For category _ _ _ = ⊥

assign-fields :
    (env : Env) (t : Trace) (i : ℕ) (category : TalkCategory) (s : Option Service) (pc : Category)
    (buf : Option (List ℕ)) (timeo_ms fd : ℤ) (remote : Option RemotePtr)
    → let talk = (assign env t i category s pc buf timeo_ms fd remote).0 in
      (talk.service ≡ s) × (talk.buf ≡ buf) × (talk.category ≡ category)
unfolding assign
assign-fields env t i category s pc none timeo_ms fd remote = (refl, refl, refl)
assign-fields env t i read_only s pc (some bytes) timeo_ms fd remote = (refl, refl, refl)
assign-fields env t i write_only s pc (some bytes) timeo_ms fd remote =
    (ground arith, ground arith, ground arith)
assign-fields env t i write_and_read s pc (some bytes) timeo_ms fd remote =
    (ground arith, ground arith, ground arith)

-- The names and the buffers of the items of a call.
abbrev pub item_names : List (Service × Option (List ℕ)) → List (List ℕ)
item_names [] = []
item_names ((s, buf) ∷ items) = s.name ∷ item_names items

abbrev item_bufs : List (Service × Option (List ℕ)) → List (Option (List ℕ))
item_bufs [] = []
item_bufs ((s, buf) ∷ items) = buf ∷ item_bufs items

pub assign_talks-For :
    (env : Env) (t : Trace) (category : TalkCategory) (timeo_ms : ℤ) (i : ℕ)
    (items : List (Service × Option (List ℕ))) (cache : ServiceCache)
    → For category
        (item_names items)
        (item_bufs items)
        (assign_talks env t category timeo_ms i items cache).0
unfolding assign_talks
assign_talks-For env t category timeo_ms i [] cache = tt
assign_talks-For env t category timeo_ms i ((s, buf) ∷ items) cache =
    let (fd, remote) = get_fd s.no cache in
    let (of_service, of_buf, of_category) =
      assign-fields env t i category (some s) s.protocol_category buf timeo_ms fd remote in
    (
      (s, of_service, refl),
      of_buf,
      of_category,
      assign_talks-For env
          (assign env t i category (some s) s.protocol_category buf timeo_ms fd remote).1 category
          timeo_ms (suc i) items (invalid_fd s.no cache),
    )

For-nil :
    (category : TalkCategory) (items : List (Service × Option (List ℕ)))
    (bufs : List (Option (List ℕ))) (talks : List Talk)
    → [] ≡ items
    → For category (item_names items) (item_bufs items) talks
    → For category [] bufs talks
For-nil category [] bufs [] e h = tt
For-nil category [] bufs (talk ∷ talks) e h = absurd h
For-nil category (item ∷ items) bufs talks e h = absurd (ground arith)

-- The first talk is the first item's, the others are the others'.
For-cons :
    (category : TalkCategory) (s : Service) (buf : Option (List ℕ))
    (rest items : List (Service × Option (List ℕ))) (talks : List Talk) (names : List (List ℕ))
    (bufs : List (Option (List ℕ)))
    → (s, buf) ∷ rest ≡ items
    → For category (item_names items) (item_bufs items) talks
    → ((more : List Talk)
        → For category (item_names rest) (item_bufs rest) more
        → For category names bufs more)
    → For category (s.name ∷ names) (buf ∷ bufs) talks
For-cons category s buf rest items [] names bufs e h go =
    let h' = subst (λ xs. For category (item_names xs) (item_bufs xs) []) (sym e) h in absurd h'
For-cons category s buf rest items (talk ∷ talks) names bufs e h go =
    let (of_service, of_buf, of_category, more) =
      subst (λ xs. For category (item_names xs) (item_bufs xs) (talk ∷ talks)) (sym e) h in
    (of_service, of_buf, of_category, go talks more)

pub with_bufs-few :
    (set : List Service) (bufs : List (Option (List ℕ)))
    → with_bufs set bufs ≡ none
    → length bufs < length (service_names set)
unfolding with_bufs
with_bufs-few [] bufs h = absurd (ground arith)
with_bufs-few (s ∷ set) [] h = omega arith
with_bufs-few (s ∷ set) (buf ∷ bufs) h = elim (Option-cases (with_bufs set bufs)) [
  | inl few ↦ omega (arith, with_bufs-few set bufs few)
  | inr (items, enough) ↦ absurd (ground arith)
]

pub with_bufs-length :
    (set : List Service) (bufs : List (Option (List ℕ))) (items : List (Service × Option (List ℕ)))
    → with_bufs set bufs ≡ some items
    → length items ≡ length (service_names set)
unfolding with_bufs
with_bufs-length [] bufs items run = let same : [] ≡ items = ground arith in sym (ap length same)
with_bufs-length (s ∷ set) [] items run = absurd (ground arith)
with_bufs-length (s ∷ set) (buf ∷ bufs) items run =
    let (rest, paired, run1) = bind-some (with_bufs set bufs) _ items run in
    ap length (sym (some_inj run1)) ∙ ap suc (with_bufs-length set bufs rest paired)

pub with_bufs-For :
    (category : TalkCategory) (set : List Service) (bufs : List (Option (List ℕ)))
    (items : List (Service × Option (List ℕ))) (talks : List Talk)
    → with_bufs set bufs ≡ some items
    → For category (item_names items) (item_bufs items) talks
    → For category (service_names set) bufs talks
unfolding with_bufs
with_bufs-For category [] bufs items talks run h =
    let same : [] ≡ items = ground arith in For-nil category items bufs talks same h
with_bufs-For category (s ∷ set) [] items talks run h = absurd (ground arith)
with_bufs-For category (s ∷ set) (buf ∷ bufs) items talks run h =
    let (rest, paired, run1) = bind-some (with_bufs set bufs) _ items run in
    For-cons category s buf rest items talks (service_names set) bufs (some_inj run1) h
      (λ more. with_bufs-For category set bufs rest more paired)

pub without_bufs-item_names :
    (set : List Service) → item_names (without_bufs set) ≡ service_names set
without_bufs-item_names [] = refl
without_bufs-item_names (s ∷ set) = ap (λ names. s.name ∷ names) (without_bufs-item_names set)

pub without_bufs-item_bufs :
    (set : List Service)
    → item_bufs (without_bufs set) ≡ replicate (length (service_names set)) none
without_bufs-item_bufs [] = refl
without_bufs-item_bufs (s ∷ set) = ap (λ bufs. none ∷ bufs) (without_bufs-item_bufs set)
