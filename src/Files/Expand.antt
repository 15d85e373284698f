-- ===== src/Files/Expand.antt =====
-- `expand_path` and `expand_file_path` of src/config_runtime.rs. The home directory of the watched
-- user comes from the environment and the user database.
use file_guard.Prelude.{
  Option, none, some, List, [], ◌∷◌, ◌++◌, if◌then◌else◌, ◌==◌, ℕ_eq, Bytes, Bytes_eq,
  Option_Bytes_eq, Bool_eq, Result, ok, ◌>>=◌,
}
use file_guard.Files.FilePath.{
  FilePath, Component, root_dir, cur_dir, parent_dir, normal, slash, dot_dot, components, join,
}

-- The path of the components that are left behind a prefix.
join_components : List Component → Bytes
join_components [] = []
join_components (normal s ∷ []) = s
join_components (parent_dir ∷ []) = dot_dot
join_components (normal s ∷ c ∷ cs) = s ++ (slash ∷ join_components (c ∷ cs))
join_components (parent_dir ∷ c ∷ cs) = dot_dot ++ (slash ∷ join_components (c ∷ cs))
join_components (root_dir ∷ cs) = join_components cs
join_components (cur_dir ∷ cs) = join_components cs

strip : List Component → Option FilePath
unfolding join_components
strip (normal s ∷ cs) =
    if s == (b'~' ∷ []) then some (record { bytes = join_components cs }) else none
strip _ = none

-- `path.strip_prefix("~")`
strip_tilde : FilePath → Option FilePath
unfolding strip
strip_tilde p = strip (components p)

module _ {ℓ} {E : Type ℓ} (target_home : Result E (Option FilePath)) where
  expand_rest : FilePath → Option FilePath → Result E FilePath
  expand_rest path none = ok path
  expand_rest path (some rest) = do
    home ← target_home
    ok (elim home [ none ↦ path | some h ↦ join h rest ])

  unfoldable pub expand_file_path : FilePath → Result E FilePath
  unfolding strip_tilde expand_rest
  expand_file_path path = expand_rest path (strip_tilde path)

  unfoldable pub expand_path : Bytes → Result E FilePath
  unfolding expand_file_path
  expand_path path = expand_file_path (record { bytes = path })
