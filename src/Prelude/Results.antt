-- ===== src/Prelude/Results.antt =====
-- Rust's `Result`, with `?` as a do block.
use mathlib.Core.Path.{◌≡◌, refl}
use mathlib.Core.Logic.{◌⊎◌, inl, inr}
use mathlib.Core.Bool.{Bool, true, false}
use mathlib.Core.List.{List, [], ◌∷◌}
use mathlib.Core.Option.{Option, none, some}

pub data Result {ℓ κ} (E : Type ℓ) (A : Type κ) : Type (ℓ ⊔ κ) where
  ok : A → Result E A
  err : E → Result E A

infixl 5 ◌>>=◌
abbrev pub ◌>>=◌ {ℓ κ μ} :
    {E : Type ℓ} {A : Type κ} {B : Type μ} → Result E A → (A → Result E B) → Result E B
err failure >>= next = err failure
ok value >>= next = next value

infixl 5 ◌>>◌
abbrev pub ◌>>◌ {ℓ κ μ} :
    {E : Type ℓ} {A : Type κ} {B : Type μ} → Result E A → Result E B → Result E B
first >> next = first >>= λ value. next

-- `if !test { return Err(e) }`
abbrev pub ensure {ℓ} : {E : Type ℓ} → Bool → E → Result E (Unit {0})
ensure false failure = err failure
ensure true failure = ok tt

-- `Option::ok_or`
abbrev pub ok_or {ℓ κ} : {E : Type ℓ} {A : Type κ} → Option A → E → Result E A
ok_or none e = err e
ok_or (some a) e = ok a

-- `iter.map(f).collect::<Result<Vec<_>, _>>()`: the first error wins.
abbrev pub collect {ℓ κ μ} :
    {E : Type ℓ} {A : Type κ} {B : Type μ} → (A → Result E B) → List A → Result E (List B)
collect f [] = ok []
collect f (x ∷ xs) = do y ← f x; ys ← collect f xs; ok (y ∷ ys)

abbrev pub is_ok {ℓ κ} : {E : Type ℓ} {A : Type κ} → Result E A → Bool
is_ok (ok _) = true
is_ok (err _) = false

module _ {ℓ κ} {E : Type ℓ} {A : Type κ} where
  pub Result-cases : (m : Result E A) → ((a : A) × (m ≡ ok a)) ⊎ ((e : E) × (m ≡ err e))
  Result-cases (ok a) = inl (a, refl)
  Result-cases (err e) = inr (e, refl)

  -- What a chain that succeeds went through.
  pub >>=-eq-ok {μ} :
      {B : Type μ} (first : Result E A) (next : A → Result E B) {last : B}
      → (first >>= next) ≡ ok last
      → (value : A) × (first ≡ ok value) × (next value ≡ ok last)
  >>=-eq-ok (err failure) next run = cc
  >>=-eq-ok (ok value) next run = (value, refl, run)

  pub ensure-eq-ok :
      (b : Bool) (e : E) (m : Result E A) {a : A}
      → (ensure b e >> m) ≡ ok a
      → (b ≡ true) × (m ≡ ok a)
  ensure-eq-ok true e m h = (refl, h)
  ensure-eq-ok false e m h = cc

  pub ok_inj : {a b : A} → ◌≡◌ {A = Result E A} (ok a) (ok b) → a ≡ b
  ok_inj e = cc

  pub ok_or-eq-ok : (o : Option A) (e : E) {a : A} → ok_or o e ≡ ok a → o ≡ some a
  ok_or-eq-ok none e h = cc
  ok_or-eq-ok (some x) e h = cc
