-- ===== src/RepositoryCache/Path.antt =====
-- Paths as texts, for apps/gti-server/src/RepositoryCache.ts and apps/gti-server/src/fs.ts.
use freephite.Base.{ℕ, Bool, true, false, [], ◌∷◌, ◌==◌, ◌&&◌, if◌then◌else◌}
use freephite.Text.{Text}

-- `path.sep`
abbrev sep : ℕ
sep = b'/'

unfoldable pub same_path : Text → Text → Bool
same_path [] [] = true
same_path (c ∷ s) (d ∷ t) = c == d && same_path s t
same_path s t = false

-- `text.startsWith(prefix)`
unfoldable pub starts_with : Text → Text → Bool
starts_with text [] = true
starts_with [] (d ∷ prefix) = false
starts_with (c ∷ text) (d ∷ prefix) = c == d && starts_with text prefix

-- `p.endsWith(path.sep)`, adding it where it is not there
unfoldable pub ensure_trailing_path_sep : Text → Text
ensure_trailing_path_sep [] = sep ∷ []
ensure_trailing_path_sep (c ∷ []) = if c == sep then c ∷ [] else c ∷ sep ∷ []
ensure_trailing_path_sep (c ∷ d ∷ p) = c ∷ ensure_trailing_path_sep (d ∷ p)
