-- ===== src/Files/Lexical/Normal.antt =====
-- What `absolute_lexical` returns is normal: it is absolute, has names only, and is its own
-- normal form.
use file_guard.Prelude.{
  ℕ, ◌≡◌, refl, ap, ◌∙◌, inl, inr, true, false, some, List, [], ◌∷◌, ◌++◌, map, ℕ_discrete,
  if◌then◌else◌, Bool-cases, ◌==◌, ℕ_eq, Bytes, Bytes-discrete, Bytes_eq, Option_Bytes_eq, Bool_eq,
  drop_last, All, All-append, All-drop_last, Result, ok, ◌>>=◌, ok_or, >>=-eq-ok, ok_inj,
  ok_or-eq-ok,
}
use file_guard.Files.FilePath.{
  FilePath, Component, root_dir, cur_dir, parent_dir, normal, slash, dot, dot_dot, cons_head,
  split_slash, body, relative, components_of, components, is_absolute, join,
}
use mathlib.Core.List.{append-nil, append_assoc}
use mathlib.Core.Path.{subst}
use file_guard.Files.Lexical.{render_names, render, push_components, absolute_lexical}

-- A name: what a piece between slashes must be to become a `normal` component.
record IsName (s : Bytes) : Type 0 where
  pub no_slash : All (λ c. (c == slash) ≡ false) s
  pub not_empty : (s == []) ≡ false
  pub not_dot : (s == dot) ≡ false
  pub not_dot_dot : (s == dot_dot) ≡ false

abbrev NamesOnly : List Component → Type 0
NamesOnly [] = Unit
NamesOnly (normal s ∷ cs) = IsName s × NamesOnly cs
NamesOnly (c ∷ cs) = NamesOnly cs

abbrev NoSlash : Bytes → Type 0
NoSlash = All (λ c. (c == slash) ≡ false)

cons_head-NoSlash :
    (c : ℕ) (ss : List Bytes) → (c == slash) ≡ false → All NoSlash ss → All NoSlash (cons_head c ss)
unfolding split_slash
cons_head-NoSlash c [] e h = ((e, tt), tt)
cons_head-NoSlash c (s ∷ ss) e h = ((e, h.0), h.1)

split_slash-NoSlash : (bs : Bytes) → All NoSlash (split_slash bs)
unfolding split_slash
split_slash-NoSlash [] = (tt, tt)
split_slash-NoSlash (c ∷ cs) = elim (Bool-cases (c == slash)) [
  | inl e ↦ rw e (tt, split_slash-NoSlash cs)
  | inr e ↦ rw e (cons_head-NoSlash c (split_slash cs) e (split_slash-NoSlash cs))
]

body-NamesOnly : (ss : List Bytes) → All NoSlash ss → NamesOnly (body ss)
unfolding body
body-NamesOnly [] h = tt
body-NamesOnly (s ∷ ss) h = elim (Bool-cases (s == [])) [
  | inl e ↦ rw e (body-NamesOnly ss h.1)
  | inr e ↦ elim (Bool-cases (s == dot)) [
    | inl d ↦ rw (e, d) (body-NamesOnly ss h.1)
    | inr d ↦ elim (Bool-cases (s == dot_dot)) [
      | inl t ↦ rw (e, d, t) (body-NamesOnly ss h.1)
      | inr t ↦
          rw (e, d, t)
            (
              record { no_slash = h.0; not_empty = e; not_dot = d; not_dot_dot = t },
              body-NamesOnly ss h.1,
            )
    ]
  ]
]

relative-NamesOnly : (ss : List Bytes) → All NoSlash ss → NamesOnly (relative ss)
unfolding relative
relative-NamesOnly [] h = tt
relative-NamesOnly (s ∷ ss) h = elim (Bool-cases (s == dot)) [
  | inl d ↦ rw d (body-NamesOnly ss h.1)
  | inr d ↦ rw d (body-NamesOnly (s ∷ ss) h)
]

components_of-relative :
    (c : ℕ) (cs : Bytes)
    → (c == slash) ≡ false
    → relative (split_slash (c ∷ cs)) ≡ components_of (c ∷ cs)
unfolding components_of
components_of-relative c cs e = rw e

components_of-NamesOnly : (bs : Bytes) → NamesOnly (components_of bs)
unfolding components_of
components_of-NamesOnly [] = tt
components_of-NamesOnly (c ∷ cs) = elim (Bool-cases (c == slash)) [
  | inl e ↦ rw e (body-NamesOnly (split_slash cs) (split_slash-NoSlash cs))
  | inr e ↦
      subst NamesOnly (components_of-relative c cs e)
        (relative-NamesOnly (split_slash (c ∷ cs)) (split_slash-NoSlash (c ∷ cs)))
]

some_inj {ℓ} : {A : Type ℓ} {a b : A} → some a ≡ some b → a ≡ b
some_inj e = cc

push_components-IsName :
    (cs : List Component) (out r : List Bytes)
    → NamesOnly cs
    → All IsName out
    → push_components cs out ≡ some r
    → All IsName r
unfolding push_components
push_components-IsName [] out r n h e = rw (some_inj e) at h
push_components-IsName (root_dir ∷ cs) out r n h e = push_components-IsName cs out r n h e
push_components-IsName (cur_dir ∷ cs) out r n h e = push_components-IsName cs out r n h e
push_components-IsName (normal s ∷ cs) out r n h e =
    push_components-IsName cs (out ++ (s ∷ [])) r n.1 (All-append IsName out (s ∷ []) h (n.0, tt)) e
push_components-IsName (parent_dir ∷ cs) [] r n h e = cc
push_components-IsName (parent_dir ∷ cs) (s ∷ ss) r n h e =
    push_components-IsName cs (drop_last (s ∷ ss)) r n (All-drop_last IsName (s ∷ ss) h) e

push_components-normal :
    (ss out : List Bytes) → push_components (map normal ss) out ≡ some (out ++ ss)
unfolding push_components
push_components-normal [] out = rw append-nil
push_components-normal (s ∷ ss) out =
    rw (push_components-normal ss (out ++ (s ∷ []))) (rw append_assoc)

split_slash-name :
    (s rest : Bytes) → NoSlash s → split_slash (s ++ (slash ∷ rest)) ≡ s ∷ split_slash rest
unfolding split_slash
split_slash-name [] rest h = refl
split_slash-name (c ∷ s) rest h = rw h.0 (rw (split_slash-name s rest h.1))

split_slash-last : (s : Bytes) → NoSlash s → split_slash (s ++ []) ≡ s ∷ []
unfolding split_slash
split_slash-last [] h = refl
split_slash-last (c ∷ s) h = rw h.0 (rw (split_slash-last s h.1))

body-name : (s : Bytes) (ss : List Bytes) → IsName s → body (s ∷ ss) ≡ normal s ∷ body ss
unfolding body
body-name s ss n = rw (n.not_empty, n.not_dot, n.not_dot_dot)

body-nil : body [] ≡ []
unfolding body
body-nil = refl

body-render :
    (s : Bytes) (ss : List Bytes)
    → All IsName (s ∷ ss)
    → body (split_slash (s ++ render_names ss)) ≡ map normal (s ∷ ss)
unfolding render_names
body-render s [] h =
    rw (split_slash-last s h.0.no_slash) (body-name s [] h.0 ∙ ap (λ cs. normal s ∷ cs) body-nil)
body-render s (t ∷ ts) h =
    rw (split_slash-name s (t ++ render_names ts) h.0.no_slash)
      (rw (body-name s (split_slash (t ++ render_names ts)) h.0) (rw (body-render t ts h.1)))

components-render :
    (ss : List Bytes) → All IsName ss → components (render ss) ≡ root_dir ∷ map normal ss
unfolding components render Bytes-discrete ℕ_discrete
components-render [] h = refl
components-render (s ∷ ss) h = ap (λ cs. root_dir ∷ cs) (body-render s ss h)

is_absolute-render : (ss : List Bytes) → is_absolute (render ss) ≡ true
unfolding is_absolute render
is_absolute-render [] = refl
is_absolute-render (s ∷ ss) = refl

-- The names that a successful call has pushed.
pushed_names {ℓ} :
    {E : Type ℓ} (current_dir : Result E FilePath) (escapes : E) (p q : FilePath)
    → absolute_lexical current_dir escapes p ≡ ok q
    → (input : FilePath) × (names : List Bytes) × (push_components (components input) []
        ≡ some names)
      × (render names ≡ q)
unfolding absolute_lexical
pushed_names {E = E} cwd e p q h =
    let start : Result E FilePath = if is_absolute p then ok p else (cwd >>= λ d. ok (join d p)) in
    let (input, _, found) =
      >>=-eq-ok start
        (λ i. ok_or (push_components (components i) []) e >>= λ names. ok (render names)) h in
    let (names, pushed, rendered) =
      >>=-eq-ok (ok_or (push_components (components input) []) e) (λ names. ok (render names))
        found in
    (input, names, ok_or-eq-ok (push_components (components input) []) e pushed, ok_inj rendered)

components-NamesOnly : (p : FilePath) → NamesOnly (components p)
unfolding components
components-NamesOnly p = components_of-NamesOnly p.bytes

-- A path that `absolute_lexical` returns is absolute, has only a root and names, and is returned
-- again when it is given.
pub absolute_lexical-normal {ℓ} :
    {E : Type ℓ} (current_dir : Result E FilePath) (escapes : E) (p q : FilePath)
    → absolute_lexical current_dir escapes p ≡ ok q
    → (is_absolute q ≡ true)
      × ((names : List Bytes) × (components q ≡ root_dir ∷ map normal names))
      × (absolute_lexical current_dir escapes q ≡ ok q)
unfolding absolute_lexical
absolute_lexical-normal cwd e p q h =
    let (input, names, pushed, rendered) = pushed_names cwd e p q h in
    let named : All IsName names =
      push_components-IsName (components input) [] names (components-NamesOnly input) tt pushed in
    rw (← rendered) (
      is_absolute-render names,
      (names, components-render names named),
      rw (is_absolute-render names, components-render names named)
          (unfold push_components in rw (push_components-normal names [])),
    )
