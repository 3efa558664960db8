-- ===== src/Auth/Security.antt =====
-- app/core/security.py, and the settings that the authentication reads. `hmac.compare_digest` is the
-- equality of texts; `sha256` is the hexadecimal digest of a text in UTF-8.
use behaviour_sim_api.Base.{ℕ, Bool, ◌++◌, take}
use behaviour_sim_api.Dict.{text_eq}
use behaviour_sim_api.Store.Rows.{Text}

pub record AuthConfig : Type 0 where
  pub sha256 : Text → Text
  pub api_key_prefix : Text
  pub session_token_prefix : Text
  pub session_max_age_seconds : ℕ

unfoldable pub hash_api_key : AuthConfig → Text → Text
hash_api_key c raw_key = c.sha256 raw_key

-- The raw key, its first 16 characters and its hash.
unfoldable pub generate_api_key : AuthConfig → Text → Text × Text × Text
generate_api_key c secret =
    let raw_key = c.api_key_prefix ++ secret in (raw_key, take 16 raw_key, hash_api_key c raw_key)

unfoldable pub verify_api_key : AuthConfig → Text → Text → Bool
verify_api_key c raw_key stored_hash = text_eq (hash_api_key c raw_key) stored_hash

unfoldable pub hash_session_token : AuthConfig → Text → Text
hash_session_token c raw_token = c.sha256 raw_token

unfoldable pub generate_session_token : AuthConfig → Text → Text × Text
generate_session_token c secret =
    let raw_token = c.session_token_prefix ++ secret in (raw_token, hash_session_token c raw_token)
