-- ===== src/Files/FilePath.antt =====
-- `std::path` on Unix: a path is its bytes, and two paths are equal when their components are.
use file_guard.Prelude.{
  ℕ, ◌≡◌, refl, ◌↔◌, Bool, true, false, ◌&&◌, ◌||◌, Option, none, some, List, [], ◌∷◌, ◌++◌, arith,
  if◌then◌else◌, ◌==◌, ℕ_eq, Bytes, Bytes_eq, Option_Bytes_eq, Bool_eq,
}
use file_guard.Files.Utf8.{valid_utf8}

pub record FilePath : Type 0 where
  pub bytes : Bytes

pub data Component : Type 0 where
  root_dir cur_dir parent_dir : Component
  normal : Bytes → Component

abbrev pub slash : ℕ
slash = b'/'

abbrev pub dot : Bytes
dot = b'.' ∷ []

abbrev pub dot_dot : Bytes
dot_dot = b'.' ∷ b'.' ∷ []

pub cons_head : ℕ → List Bytes → List Bytes
cons_head c [] = (c ∷ []) ∷ []
cons_head c (s ∷ ss) = (c ∷ s) ∷ ss

-- The pieces between slashes; there is always one.
unfoldable pub split_slash : Bytes → List Bytes
unfolding cons_head
split_slash [] = [] ∷ []
split_slash (c ∷ cs) = if c == slash then [] ∷ split_slash cs else cons_head c (split_slash cs)

-- Empty pieces and `.` are skipped past the start of a path.
unfoldable pub body : List Bytes → List Component
body [] = []
body (s ∷ ss) =
    let rest = body ss in
    if s == []
    then rest
    else if s == dot
    then rest
    else if s == dot_dot
    then parent_dir ∷ rest
    else normal s ∷ rest

unfoldable pub relative : List Bytes → List Component
relative [] = []
relative (s ∷ ss) = if s == dot then cur_dir ∷ body ss else body (s ∷ ss)

unfoldable pub components_of : Bytes → List Component
unfolding split_slash relative body
components_of [] = []
components_of (c ∷ cs) =
    if c == slash then root_dir ∷ body (split_slash cs) else relative (split_slash (c ∷ cs))

-- `Path::components`
unfoldable pub components : FilePath → List Component
unfolding components_of
components p = components_of p.bytes

abbrev component_eq : Component → Component → Bool
component_eq root_dir root_dir = true
component_eq cur_dir cur_dir = true
component_eq parent_dir parent_dir = true
component_eq (normal s) (normal t) = s == t
component_eq _ _ = false

components_eq : List Component → List Component → Bool
components_eq [] [] = true
components_eq (c ∷ cs) (d ∷ ds) = component_eq c d && components_eq cs ds
components_eq _ _ = false

-- `PartialEq for Path`
infix 50 ◌=path=◌
unfoldable pub ◌=path=◌ : FilePath → FilePath → Bool
unfolding components_eq
p =path= q = components_eq (components p) (components q)

component_eq_iff : (c d : Component) → (component_eq c d ≡ true) ↔ (c ≡ d)
component_eq_iff root_dir d = ground arith
component_eq_iff cur_dir d = ground arith
component_eq_iff parent_dir d = ground arith
component_eq_iff (normal s) d = ground arith

components_eq_iff : (cs ds : List Component) → (components_eq cs ds ≡ true) ↔ (cs ≡ ds)
unfolding components_eq
components_eq_iff [] [] = ground arith
components_eq_iff [] (d ∷ ds) = ground arith
components_eq_iff (c ∷ cs) [] = ground arith
components_eq_iff (c ∷ cs) (d ∷ ds) = ground (arith, component_eq_iff c d, components_eq_iff cs ds)

-- Two paths are equal exactly when they have the same components.
pub =path=-iff : (p q : FilePath) → ((p =path= q) ≡ true) ↔ (components p ≡ components q)
unfolding ◌=path=◌
=path=-iff p q = components_eq_iff (components p) (components q)

pub =path=-refl : (p : FilePath) → (p =path= p) ≡ true
=path=-refl p = (=path=-iff p p).1 refl

unfoldable pub has_root : Bytes → Bool
has_root [] = false
has_root (c ∷ cs) = c == slash

-- `Path::is_absolute`
unfoldable pub is_absolute : FilePath → Bool
unfolding has_root
is_absolute p = has_root p.bytes

-- `Path::to_str`
unfoldable pub to_str : FilePath → Option Bytes
to_str p = if valid_utf8 p.bytes then some p.bytes else none

ends_with_slash : Bytes → Bool
ends_with_slash [] = false
ends_with_slash (c ∷ []) = c == slash
ends_with_slash (c ∷ d ∷ cs) = ends_with_slash (d ∷ cs)

-- `Path::join`: an absolute path replaces the base.
unfoldable pub join : FilePath → FilePath → FilePath
unfolding is_absolute ends_with_slash
join base p =
    if is_absolute p
    then p
    else if base.bytes == [] || ends_with_slash base.bytes
    then record { bytes = base.bytes ++ p.bytes }
    else record { bytes = base.bytes ++ (slash ∷ p.bytes) }
