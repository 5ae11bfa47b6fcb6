-- ===== src/Http/Util/Path.antt =====
-- ValidPath against the walk through the directory tree that the file system makes of a path.
use flux_a_high_performance.Prelude.{
  ℕ, zero, suc, ◌+◌, ◌-◌, ◌≤◌, ◌≡◌, ◌≢◌, refl, sym, ap, ◌∙◌, Bool, true, false, List, [], ◌∷◌, ◌++◌,
  some, replicate, All, Avoids, codes, eq_bytes, eq_bytes→eq, append-nil, arith, inl, inr,
}
use flux_a_high_performance.Http.Util.{valid_levels, valid_path}
use flux_a_high_performance.Http.Util.Tokens.{part, tokens, tokens-none, tokens-append}
use flux_a_high_performance.Http.Util.Split.{split_lem, split-none, split-some}

abbrev dot : List ℕ
dot = codes "."

abbrev dot_dot : List ℕ
dot_dot = codes ".."

-- A walk that never leaves the root: "." stays, ".." goes up, any other name goes down.
unfoldable pub stays : ℕ → List (List ℕ) → Bool
unfolding eq_bytes
stays level [] = true
stays level (dir ∷ dirs) = elim (eq_bytes dir dot) [
  | true ↦ stays level dirs
  | false ↦ elim (eq_bytes dir dot_dot) [
    | true ↦ elim level [ zero ↦ false | suc up ↦ stays up dirs ]
    | false ↦ stays (suc level) dirs
  ]
]

-- The path with these parts.
unfoldable pub path_of : List (List ℕ) → List ℕ
path_of [] = []
path_of (p ∷ ps) = b'/' ∷ p ++ path_of ps

-- Names of directory entries: not empty, and without a slash.
abbrev pub IsName : List ℕ → Type 0
IsName p = (p ≢ []) × Avoids b'/' p

part-name : (p : List ℕ) (rest : List (List ℕ)) → p ≢ [] → part p rest ≡ p ∷ rest
unfolding part
part-name [] rest h = absurd (h refl)
part-name (x ∷ p) rest h = refl

tokens-slash : (s : List ℕ) → tokens b'/' (b'/' ∷ s) ≡ tokens b'/' s
unfolding part
tokens-slash s = tokens-append b'/' [] s tt

-- Splitting a path at its slashes gives back its parts.
pub tokens-path_of : (ps : List (List ℕ)) → All IsName ps → tokens b'/' (path_of ps) ≡ ps
unfolding path_of part
tokens-path_of [] h = tokens-none b'/' [] tt ∙ refl
tokens-path_of (p ∷ []) h =
    tokens-slash (p ++ [])
    ∙ ap (tokens b'/') (append-nil p)
    ∙ tokens-none b'/' p h.0.1
    ∙ part-name p [] h.0.0
tokens-path_of (p ∷ q ∷ ps) h =
    let rest = q ++ path_of ps in
    tokens-slash (p ++ b'/' ∷ rest)
    ∙ tokens-append b'/' p rest h.0.1
    ∙ part-name p (tokens b'/' rest) h.0.0
    ∙ ap (λ r. p ∷ r) (sym (tokens-slash rest) ∙ tokens-path_of (q ∷ ps) h.1)

valid_levels-stays :
    (level : ℕ) (ps : List (List ℕ))
    → All (λ p. p ≢ dot) ps
    → valid_levels level ps ≡ stays level ps
unfolding valid_levels stays
valid_levels-stays level [] h = refl
valid_levels-stays zero (p ∷ ps) h =
    ground (arith, eq_bytes→eq p dot, valid_levels-stays 1 ps h.1, h.0)
valid_levels-stays (suc n) (p ∷ ps) h = ground (
  arith,
  eq_bytes→eq p dot,
  valid_levels-stays n ps h.1,
  valid_levels-stays (suc (suc n)) ps h.1,
  h.0,
)

-- A path that holds a slash and has no part "." is accepted exactly when its walk never leaves the
-- root.
pub valid_path-stays :
    (path : List ℕ)
    → ¬ Avoids b'/' path
    → All (λ p. p ≢ dot) (tokens b'/' path)
    → valid_path path ≡ some (stays 0 (tokens b'/' path))
unfolding valid_path
valid_path-stays path slash h = elim (split_lem b'/' path) [
  | inl (a, _) ↦ absurd (slash a)
  | inr (_, e) ↦ rw e (ap some (valid_levels-stays 0 (tokens b'/' path) h))
]

valid_levels-dots :
    (n level : ℕ) (ps : List (List ℕ))
    → valid_levels level (replicate n dot ++ ps) ≡ valid_levels (level + n) ps
unfolding valid_levels eq_bytes
valid_levels-dots zero level ps = ap (λ l. valid_levels l ps) (omega arith)
valid_levels-dots (suc n) level ps =
    valid_levels-dots n (level + 1) ps ∙ ap (λ l. valid_levels l ps) (omega arith)

valid_levels-ups : (n level : ℕ) → n ≤ level → valid_levels level (replicate n dot_dot) ≡ true
unfolding valid_levels eq_bytes
valid_levels-ups zero level h = refl
valid_levels-ups (suc n) level h = ground (arith, valid_levels-ups n (level - 1))

stays-dots : (n : ℕ) (ps : List (List ℕ)) → stays 0 (replicate n dot ++ dot_dot ∷ ps) ≡ false
unfolding stays
stays-dots zero ps = refl
stays-dots (suc n) ps = stays-dots n ps

-- The parts "." and "..", each so many times.
abbrev pub climb : ℕ → List (List ℕ)
climb n = replicate n dot ++ replicate n dot_dot

IsName-dot : IsName dot
IsName-dot = (λ e. cc, omega arith)

IsName-dot_dot : IsName dot_dot
IsName-dot_dot = (λ e. cc, omega arith)

replicate-IsName : (n : ℕ) (p : List ℕ) → IsName p → All IsName (replicate n p)
replicate-IsName zero p h = tt
replicate-IsName (suc n) p h = (h, replicate-IsName n p h)

append-IsName : (ps qs : List (List ℕ)) → All IsName ps → All IsName qs → All IsName (ps ++ qs)
append-IsName [] qs h k = k
append-IsName (p ∷ ps) qs h k = (h.0, append-IsName ps qs h.1 k)

climb-IsName : (n : ℕ) → All IsName (climb n)
climb-IsName n =
    append-IsName (replicate n dot) (replicate n dot_dot) (replicate-IsName n dot IsName-dot)
      (replicate-IsName n dot_dot IsName-dot_dot)

-- ValidPath on a path with given parts counts every part but ".." as a step down.
valid_path-path_of :
    (p : List ℕ) (ps : List (List ℕ))
    → All IsName (p ∷ ps)
    → valid_path (path_of (p ∷ ps)) ≡ some (valid_levels 0 (p ∷ ps))
unfolding valid_path path_of
valid_path-path_of p ps h =
    rw (split-some b'/' (path_of (p ∷ ps)) [] (p ++ path_of ps) tt refl)
      (ap (λ ts. some (valid_levels 0 ts)) (tokens-path_of (p ∷ ps) h))

-- With as many parts "." in front, any number of parts ".." is accepted, though the walk leaves the
-- root: each "." is counted as a step down.
pub valid_path_escapes :
    (n : ℕ)
    → let path = path_of (climb (suc n)) in
      (valid_path path ≡ some true) × (stays 0 (tokens b'/' path) ≡ false)
valid_path_escapes n =
    let names = climb-IsName (suc n) in
    (
      valid_path-path_of dot (replicate n dot ++ replicate (suc n) dot_dot) names
          ∙ ap some (
              valid_levels-dots (suc n) 0 (replicate (suc n) dot_dot)
              ∙ valid_levels-ups (suc n) (0 + suc n) (omega arith)),
      ap (stays 0) (tokens-path_of (climb (suc n)) names)
          ∙ stays-dots (suc n) (replicate n dot_dot),
    )

-- A path without a slash is accepted whatever it is: Split yields no part of it.
pub valid_path_no_slash : (path : List ℕ) → Avoids b'/' path → valid_path path ≡ some true
unfolding valid_path valid_levels
valid_path_no_slash path a = rw (split-none b'/' path a)

-- ValidPath always returns.
pub valid_path_total : (path : List ℕ) → (b : Bool) × (valid_path path ≡ some b)
unfolding valid_path
valid_path_total path = elim (split_lem b'/' path) [
  | inl (_, e) ↦ (valid_levels 0 [], rw e refl)
  | inr (_, e) ↦ (valid_levels 0 (tokens b'/' path), rw e refl)
]
