-- ===== src/Permalinks/Clean.antt =====
-- `cleanPath`: its results are its fixed points.
use app_gocms.Prelude.{◌≡◌, refl, [], ◌∷◌, if◌then◌else◌}
use app_gocms.Text.{Text, ◌==◌, slash, is_slash, is_empty, trim, trim_left, trim_right}
use app_gocms.Text.Trim.{trim_idem, trim_right-trim}
use app_gocms.Permalinks.{clean_path}

-- What `cleanPath` makes of the trimmed path.
pub clean_path-trim : (path : Text) → clean_path path ≡ slash ∷ trim is_slash path
unfolding clean_path trim_right ◌==◌ is_empty
clean_path-trim path = from (trim is_slash path) (trim_right-trim is_slash path)
  where
    from :
        (t : Text)
        → trim_right is_slash t ≡ t
        → (if slash ∷ t == slash ∷ [] then slash ∷ t else trim_right is_slash (slash ∷ t))
          ≡ slash ∷ t
    from [] h = refl
    from (c ∷ t) h = rw h

-- The cleaned form of a cleaned path is the path itself.
clean_path_idem : (path : Text) → clean_path (clean_path path) ≡ clean_path path
clean_path_idem path =
    rw (clean_path-trim path, clean_path-trim (slash ∷ trim is_slash path))
      (rooted (trim is_slash path) (trim_idem is_slash path))
  where
    rooted : (t : Text) → trim is_slash t ≡ t → slash ∷ trim is_slash (slash ∷ t) ≡ slash ∷ t
    rooted t h = unfold trim trim_left in (unfold trim in rw h)

-- A path of the form that `cleanPath` returns is left as it is.
pub clean_path_fixed : (t : Text) → trim is_slash t ≡ t → clean_path (slash ∷ t) ≡ slash ∷ t
clean_path_fixed t h = rw clean_path-trim (unfold trim trim_left in rw h)
