-- ===== src/Files/Lexical.antt =====
-- `absolute_lexical` of src/secure_file.rs and its twin in src/store/record.rs.
-- The output buffer is kept as the names pushed on it; it is `/` when there are none, and a `pop`
-- drops the last name.
pub mod Normal
use file_guard.Prelude.{
  ◌+◌, Option, none, some, List, [], ◌∷◌, ◌++◌, if◌then◌else◌, ℕ_eq, discrete_eq, Bytes, Bytes_eq,
  Option_Bytes_eq, Bool_eq, drop_last, Result, ok, ◌>>=◌, ◌>>◌, ok_or,
}
use file_guard.Files.FilePath.{
  FilePath, Component, root_dir, cur_dir, parent_dir, normal, slash, components, is_absolute, join,
}

unfoldable pub render_names : List Bytes → Bytes
render_names [] = []
render_names (s ∷ ss) = slash ∷ (s ++ render_names ss)

-- The bytes of the output buffer.
unfoldable pub render : List Bytes → FilePath
unfolding render_names
render [] = record { bytes = slash ∷ [] }
render (s ∷ ss) = record { bytes = render_names (s ∷ ss) }

-- The loop over the components; `none` is the escape past the root.
unfoldable pub push_components : List Component → List Bytes → Option (List Bytes)
push_components [] output = some output
push_components (root_dir ∷ cs) output = push_components cs output
push_components (cur_dir ∷ cs) output = push_components cs output
push_components (normal s ∷ cs) output = push_components cs (output ++ (s ∷ []))
push_components (parent_dir ∷ cs) [] = none
push_components (parent_dir ∷ cs) (s ∷ ss) = push_components cs (drop_last (s ∷ ss))

module _ {ℓ} {E : Type ℓ} (current_dir : Result E FilePath) (escapes : E) where
  unfoldable pub absolute_lexical : FilePath → Result E FilePath
  unfolding push_components
  absolute_lexical path = do
    input ← if is_absolute path then ok path else (do cwd ← current_dir; ok (join cwd path))
    output ← ok_or (push_components (components input) []) escapes
    ok (render output)
