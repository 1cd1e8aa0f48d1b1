-- ===== src/PathName/Examples.antt =====
-- file.c at the path of a device, `Net/0`.
use mikucos.Base.{ℕ, ◌≡◌, refl, none, some, List, [], ◌∷◌, ◌++◌}
use mikucos.PathName.{file_path_dirname, file_path_filename}
use mikucos.PathName.Split.{dirname-filename}

abbrev net : List ℕ
net = b'N' ∷ b'e' ∷ b't' ∷ []

abbrev zero_name : List ℕ
zero_name = b'0' ∷ []

trailing_slash : file_path_filename (net ++ (b'/' ∷ [])) ≡ none
unfolding file_path_filename
trailing_slash = refl

dirname-filename_example :
    (file_path_dirname (net ++ (b'/' ∷ zero_name)) ≡ some net)
    × (file_path_filename (net ++ (b'/' ∷ zero_name)) ≡ some zero_name)
    × (file_path_dirname zero_name ≡ none)
    × (file_path_filename zero_name ≡ some zero_name)
dirname-filename_example = dirname-filename net zero_name (refl, tt)
