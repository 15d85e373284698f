-- ===== src/Policy/Manager/Lookup.antt =====
-- What `lookup_rule` finds: a matching deny wins over any allow, in whatever order they stand.
use mathlib.Core.List.{Memᴰ}
use file_guard.Prelude.{
  ◌≡◌, refl, sym, ◌∙◌, ◌↔◌, ◌⊎◌, inl, inr, Bool, true, false, Option, none, some, List, [], ◌∷◌,
  ℕ_eq, Bytes_eq, Option_Bytes_eq, Bool_eq,
}
use file_guard.Files.FilePath.{FilePath}
use file_guard.Process.{ProcessInfo}
use file_guard.Policy.Rule.{Action, allow, deny, Access, Access_eq}
use file_guard.Policy.Entry.{RuleEntry_eq, Environment}
use file_guard.Policy.Manager.{ActiveRule, verdict, lookup_loop, lookup_rule}

module _ (env : Environment) (process : ProcessInfo) (file : FilePath) (req : Access) where
  -- An active rule that matches and has the action.
  abbrev pub Found : Action → List ActiveRule → Type 0
  Found action rules =
      (rule : ActiveRule) × Memᴰ rule rules
      × (verdict env rule.compiled process file req ≡ some action)

  Found-tail : (a : Action) (x : ActiveRule) (xs : List ActiveRule) → Found a xs → Found a (x ∷ xs)
  Found-tail a x xs (rule, m, v) = (rule, Memᴰ.tail m, v)

  verdict-cases : (o : Option Action) → (o ≡ none) ⊎ ((o ≡ some deny) ⊎ (o ≡ some allow))
  verdict-cases none = inl refl
  verdict-cases (some deny) = inr (inl refl)
  verdict-cases (some allow) = inr (inr refl)

  allow-ne-deny : ¬ (some deny ≡ some allow)
  allow-ne-deny e = cc

  loop-deny :
      (m : Bool) (rules : List ActiveRule)
      → lookup_loop env m rules process file req ≡ some deny
      → Found deny rules
  unfolding lookup_loop
  loop-deny true [] h = cc
  loop-deny false [] h = cc
  loop-deny m (x ∷ xs) h = elim (verdict-cases (verdict env x.compiled process file req)) [
    | inl e ↦ Found-tail deny x xs (loop-deny m xs (rw (e, lookup_loop) at h))
    | inr (inl e) ↦ (x, Memᴰ.head refl, e)
    | inr (inr e) ↦ Found-tail deny x xs (loop-deny true xs (rw (e, lookup_loop) at h))
  ]

  loop-allow :
      (m : Bool) (rules : List ActiveRule)
      → lookup_loop env m rules process file req ≡ some allow
      → (m ≡ true) ⊎ Found allow rules
  unfolding lookup_loop
  loop-allow true [] h = inl refl
  loop-allow false [] h = cc
  loop-allow m (x ∷ xs) h = elim (verdict-cases (verdict env x.compiled process file req)) [
    | inl e ↦ elim (loop-allow m xs (rw (e, lookup_loop) at h)) [
      | inl t ↦ inl t
      | inr f ↦ inr (Found-tail allow x xs f)
    ]
    | inr (inl e) ↦ absurd (allow-ne-deny (rw (e, lookup_loop) at h))
    | inr (inr e) ↦ inr (x, Memᴰ.head refl, e)
  ]

  loop-Found-deny :
      (m : Bool) (rules : List ActiveRule)
      → Found deny rules
      → lookup_loop env m rules process file req ≡ some deny
  unfolding lookup_loop
  loop-Found-deny m [] (rule, f, v) = elim f [ ]
  loop-Found-deny m (x ∷ xs) (rule, Memᴰ.head e, v) =
      let here : verdict env x.compiled process file req ≡ some deny = rw (← e) v in
      rw (here, lookup_loop)
  loop-Found-deny m (x ∷ xs) (rule, Memᴰ.tail f, v) =
      elim (verdict-cases (verdict env x.compiled process file req)) [
        | inl e ↦ rw (e, lookup_loop) (loop-Found-deny m xs (rule, f, v))
        | inr (inl e) ↦ rw (e, lookup_loop)
        | inr (inr e) ↦ rw (e, lookup_loop) (loop-Found-deny true xs (rule, f, v))
      ]

  no_member : {rule : ActiveRule} → ¬ Memᴰ rule []
  no_member m = elim m [ ]

  none-ne-some : ¬ (some deny ≡ none)
  none-ne-some e = cc

  true-ne-false : ¬ (true ≡ false)
  true-ne-false e = cc

  none_here :
      (x : ActiveRule) (xs : List ActiveRule) (a : Action)
      → verdict env x.compiled process file req ≡ none
      → ¬ Found a xs
      → ¬ Found a (x ∷ xs)
  none_here x xs a e rest (rule, Memᴰ.head same, v) =
      let here : verdict env x.compiled process file req ≡ some a = rw (← same) v in cc
  none_here x xs a e rest (rule, Memᴰ.tail m, v) = rest (rule, m, v)

  loop-none :
      (m : Bool) (rules : List ActiveRule)
      → lookup_loop env m rules process file req ≡ none
      → (m ≡ false) × ¬ Found allow rules
  unfolding lookup_loop
  loop-none true [] h = cc
  loop-none false [] h = (refl, λ found. no_member found.1)
  loop-none m (x ∷ xs) h = elim (verdict-cases (verdict env x.compiled process file req)) [
    | inl e ↦
        let (fresh, rest) = loop-none m xs (rw (e, lookup_loop) at h) in
        (fresh, λ found. none_here x xs allow e rest found)
    | inr (inl e) ↦ absurd (none-ne-some (rw (e, lookup_loop) at h))
    | inr (inr e) ↦ absurd (true-ne-false (loop-none true xs (rw (e, lookup_loop) at h)).0)
  ]

  Found-allow :
      (rules : List ActiveRule)
      → lookup_loop env false rules process file req ≡ some allow
      → Found allow rules
  Found-allow rules h = elim (loop-allow false rules h) [ inl e ↦ cc | inr f ↦ f ]

  only_allow :
      (rules : List ActiveRule) (o : Option Action)
      → lookup_loop env false rules process file req ≡ o
      → Found allow rules
      → ¬ Found deny rules
      → o ≡ some allow
  only_allow rules none e found never = absurd ((loop-none false rules e).1 found)
  only_allow rules (some allow) e found never = refl
  only_allow rules (some deny) e found never = absurd (never (loop-deny false rules e))

  -- `lookup_rule` denies exactly when some matching rule denies.
  pub lookup_rule-deny_iff :
      (rules : List ActiveRule)
      → (lookup_rule env rules process file req ≡ some deny) ↔ Found deny rules
  unfolding lookup_rule
  lookup_rule-deny_iff rules = (loop-deny false rules, loop-Found-deny false rules)

  -- `lookup_rule` allows exactly when some matching rule allows and none denies.
  pub lookup_rule-allow_iff :
      (rules : List ActiveRule)
      → (lookup_rule env rules process file req ≡ some allow)
        ↔ (Found allow rules × ¬ Found deny rules)
  unfolding lookup_rule
  lookup_rule-allow_iff rules = (
    λ h. (Found-allow rules h, λ d. allow-ne-deny (sym (loop-Found-deny false rules d) ∙ h)),
    λ found. only_allow rules (lookup_loop env false rules process file req) refl found.0 found.1,
  )
