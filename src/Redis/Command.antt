-- ===== src/Redis/Command.antt =====
-- RedisParser::ParseCmd: which inputs it takes, and what it makes of them.
pub mod Wire
use magneto.Base.{
  ℕ, zero, suc, ◌+◌, ◌%◌, ◌^◌, ◌<◌, ◌==◌, ◌≡◌, ◌≢◌, ◌⊎◌, ◌∙◌, inl, inr, refl, ap, subst, sym, Bool,
  true, false, if◌then◌else◌, Bool-cases, Option-cases, List, [], ◌∷◌, ◌++◌, append_assoc,
  append-nil, length, length-append, take, drop, Option, none, some, arith, find, digits, Lacks,
}
use magneto.Redis.{k_sep, crlf, bulk, add_segment, parse_segs, parse_cmd}

-- A segment: not empty, and without the separator.
abbrev pub Proper : List ℕ → Type 0
Proper p = (0 < length p) × Lacks k_sep p

-- The segments spell the text, with a separator between two of them and perhaps one at the end.
abbrev pub Cuts : List (List ℕ) → List ℕ → Type 0
Cuts [] s = s ≡ []
Cuts (p ∷ ps) s =
    Proper p × (((s ≡ p) × (ps ≡ [])) ⊎ ((s' : List ℕ) × (s ≡ p ++ k_sep ∷ s') × Cuts ps s'))

-- A separator at the start or behind another.
pub data Gap : List ℕ → Type 0 where
  here : {s : List ℕ} (s' : List ℕ) → s ≡ k_sep ∷ s' → Gap s
  later : {s : List ℕ} (p s' : List ℕ) → Proper p → s ≡ p ++ k_sep ∷ s' → Gap s' → Gap s

-- A bulk string of the protocol: its length, and its bytes between two ends of lines.
abbrev pub bulk_string : List ℕ → List ℕ
bulk_string p = b'$' ∷ digits (length p) ++ (b'\r' ∷ b'\n' ∷ p ++ (b'\r' ∷ b'\n' ∷ []))

abbrev pub bulks : List (List ℕ) → List ℕ
bulks [] = []
bulks (p ∷ ps) = bulk_string p ++ bulks ps

bulk-bulk_string : (p : List ℕ) → bulk (length p) p ≡ bulk_string p
bulk-bulk_string p = refl

-- A command of the redis protocol: an array of bulk strings.
abbrev pub command : List (List ℕ) → List ℕ
command ps = b'*' ∷ digits (length ps) ++ (b'\r' ∷ b'\n' ∷ bulks ps)

find-Lacks : (c : ℕ) (s : List ℕ) → find c s ≡ none → Lacks c s
unfolding find
find-Lacks c [] h = tt
find-Lacks c (x ∷ s) h = elim (Bool-cases (x == c)) [
  | inl found ↦ absurd (ground arith)
  | inr on ↦ (on, find-Lacks c s (ground arith))
]

find-cut :
    (c : ℕ) (s : List ℕ) (i : ℕ)
    → find c s ≡ some i
    → Lacks c (take i s) × (s ≡ take i s ++ c ∷ drop (suc i) s) × (length (take i s) ≡ i)
unfolding find
find-cut c [] i h = absurd (ground arith)
find-cut c (x ∷ s) zero h = elim (Bool-cases (x == c)) [
  | inl found ↦ (tt, ap (λ y. y ∷ s) (ground arith), refl)
  | inr on ↦ absurd (ground arith)
]
find-cut c (x ∷ s) (suc i) h = elim (Bool-cases (x == c)) [
  | inl found ↦ absurd (ground arith)
  | inr on ↦
      let (lacks, cut, long) = find-cut c s i (ground arith) in
      ((on, lacks), ap (λ t. x ∷ t) cut, ap suc long)
]

abbrev Parsed : ℕ → List ℕ → List ℕ → Option (Option (ℕ × List ℕ)) → Type 0
Parsed n result rest out =
    ((ps : List (List ℕ)) × Cuts ps rest × (out ≡ some (some (n + length ps, result ++ bulks ps))))
    ⊎ (Gap rest × (out ≡ some none))

take_all : (s : List ℕ) → take (length s) s ≡ s
take_all [] = refl
take_all (x ∷ s) = ap (λ t. x ∷ t) (take_all s)

add_segment-short :
    (len_seg : ℕ) (rest : List ℕ) (n : ℕ) (result : List ℕ)
    (go_on : ℕ → List ℕ → Option (Option (ℕ × List ℕ)))
    → 0 < len_seg
    → len_seg < 2 ^ 32
    → n + 1 < 2 ^ 32
    → add_segment (len_seg % 2 ^ 32) rest n result go_on
      ≡ go_on (n + 1) (result ++ bulk len_seg (take len_seg rest))
add_segment-short len_seg rest n result go_on some_bytes short few =
    let len : len_seg % 2 ^ 32 ≡ len_seg = omega arith in
    let num : (n + 1) % 2 ^ 32 ≡ n + 1 = omega arith in
    let more : (len_seg == 0) ≡ false = ground arith in rw (len, num, more)

last_segment :
    (n : ℕ) (result rest : List ℕ)
    → Lacks k_sep rest
    → n + length rest < 2 ^ 32
    → Parsed n result rest
        (add_segment (length rest % 2 ^ 32) rest n result (λ num out. some (some (num, out))))
last_segment n result [] lacks small =
    let number : n ≡ n + 0 = omega arith in inl ([], refl, cc (number, append-nil result))
last_segment n result (x ∷ s) lacks small =
    let step =
      add_segment-short (length (x ∷ s)) (x ∷ s) n result (λ num out. some (some (num, out)))
        (omega arith) (omega arith) (omega arith) in
    inl (
      (x ∷ s) ∷ [],
      ((omega arith, lacks), inl (refl, refl)),
      step ∙ cc (bulk-bulk_string (x ∷ s), append-nil (bulk (length (x ∷ s)) (x ∷ s)), take_all s),
    )

-- A segment in front of what is parsed behind its separator.
Parsed-cons :
    (n len : ℕ) (result rest p s' : List ℕ) (out : Option (Option (ℕ × List ℕ)))
    → Proper p
    → length p ≡ len
    → rest ≡ p ++ k_sep ∷ s'
    → Parsed (n + 1) (result ++ bulk len p) s' out
    → Parsed n result rest out
Parsed-cons n len result rest p s' out proper long cut (inl (ps, cuts, ran)) =
    let number : n + 1 + length ps ≡ n + length (p ∷ ps) = omega arith in
    inl (
      p ∷ ps,
      (proper, inr (s', cut, cuts)),
      ran ∙ cc (number, long, bulk-bulk_string p, append_assoc result (bulk len p) (bulks ps)),
    )
Parsed-cons n len result rest p s' out proper long cut (inr (gap, ran)) =
    inr (later p s' proper cut gap, ran)

parse_segs-Parsed :
    (fuel : ℕ) (rest : List ℕ) (n : ℕ) (result : List ℕ)
    → length rest < fuel
    → n + length rest < 2 ^ 32
    → Parsed n result rest (parse_segs fuel rest n result)
unfolding parse_segs
parse_segs-Parsed zero rest n result enough small = absurd (omega arith)
parse_segs-Parsed (suc fuel) rest n result enough small = elim (Option-cases (find k_sep rest)) [
  | inl e ↦ rw (e, parse_segs) (last_segment n result rest (find-Lacks k_sep rest e) small)
  | inr (zero, e) ↦ rw (e, parse_segs) (inr (here (drop 1 rest) (find-cut k_sep rest 0 e).1, refl))
  | inr (suc i, e) ↦
      let (lacks, cut, long) = find-cut k_sep rest (suc i) e in
      let p = take (suc i) rest in
      let s' = drop (suc (suc i)) rest in
      let whole : length rest ≡ suc i + (1 + length s') =
        ap length cut ∙ omega (arith, length-append {0} p (k_sep ∷ s')) in
      let tail =
        parse_segs-Parsed fuel s' (n + 1) (result ++ bulk (suc i) p) (omega arith) (omega arith) in
      let step =
        add_segment-short (suc i) rest n result (parse_segs fuel s') (omega arith) (omega arith)
          (omega arith) in
      rw (e, parse_segs)
        (subst (Parsed n result rest) (sym step)
          (Parsed-cons n (suc i) result rest p s' _ (omega (arith, long), lacks) long cut tail))
]

-- ParseCmd on less than 2^32 bytes always returns. Either the input is the proper segments of a
-- command with a separator between two of them, and perhaps one at the end, and the output is that
-- command; or the input is empty or has a separator at the start or behind another, and ParseCmd
-- fails.
pub parse_cmd-command :
    (input : List ℕ)
    → length input < 2 ^ 32
    → ((ps : List (List ℕ)) × (ps ≢ [])
        × Cuts ps input
        × (parse_cmd input ≡ some (some (command ps))))
      ⊎ (((input ≡ []) ⊎ Gap input) × (parse_cmd input ≡ some none))
unfolding parse_cmd
parse_cmd-command [] small = inr (inl refl, refl)
parse_cmd-command (c ∷ s) small =
    elim (parse_segs-Parsed (suc (length (c ∷ s))) (c ∷ s) 0 crlf (omega arith) (omega arith)) [
      | inl ([], cuts, ran) ↦ absurd (cc)
      | inl (p ∷ ps, cuts, ran) ↦
          let number : 0 + length (p ∷ ps) ≡ length (p ∷ ps) = omega arith in
          inl (p ∷ ps, λ e. cc, cuts, rw (ran, parse_cmd) (cc number))
      | inr (gap, ran) ↦ inr (inr gap, rw (ran, parse_cmd) refl)
    ]
