-- ===== src/Sessions/Cookies.antt =====
-- sessions/cookies.py
use rheo_stream.Prelude.{
  String, Bool, not, ◌||◌, List, [], ◌∷◌, ◌++◌, Option, none, some, Result, ok, raise, ◌>>=◌,
  str_eq, if◌then◌else◌,
}
use rheo_stream.Prelude.Text.{join}
use rheo_stream.Refusals.{Exn, other_error}

-- `_MAX_AGE_BY_NAME`, the ages as Python prints them
abbrev max_age_by_name : String → Result Exn (Option String)
max_age_by_name name =
    if str_eq name "rheo_session"
    then ok none
    else if str_eq name "rheo_oauth_state"
    then ok (some "600")
    else if str_eq name "rheo_continue"
    then ok (some "300")
    else raise (other_error "ValueError" name)

abbrev max_age_part : Option String → List String
max_age_part none = []
max_age_part (some seconds) = join "" ("Max-Age=" ∷ seconds ∷ []) ∷ []

abbrev pub is_secure : String → String → Bool
is_secure profile scheme = not (str_eq scheme "http") || str_eq profile "production"

-- The attributes that `build_cookie` joins.
unfoldable pub cookie_parts : String → String → String → String → Result Exn (List String)
cookie_parts profile name value scheme = do
  max_age ← max_age_by_name name
  ok (
      (join "" (name ∷ "=" ∷ value ∷ []) ∷ "HttpOnly" ∷ "SameSite=Lax" ∷ "Path=/" ∷ [])
      ++ max_age_part max_age
      ++ (if is_secure profile scheme then "Secure" ∷ [] else []))

-- `build_cookie`, with `current_profile()`
unfoldable pub build_cookie : String → String → String → String → Result Exn String
build_cookie profile name value scheme = do
  parts ← cookie_parts profile name value scheme
  ok (join "; " parts)
