-- ===== src/Auth.antt =====
-- app/core/security.py, app/services/api_key.py, app/auth, app/core/auth.py and app/api/v1/auth.py: who calls
-- the service. The settings and SHA-256 are a parameter, and so is the secret that
-- `secrets.token_urlsafe` yields. Logging is left out.
pub mod Security
pub mod Keys
pub mod KeyLimits
pub mod KeyChecks
pub mod Sessions
pub mod Lifetime
pub mod Identities
pub mod Accounts
pub mod Providers
pub mod Callback
pub mod Answers
pub mod Confirmation
pub mod SignIn
pub mod Principals
pub mod Credentials
