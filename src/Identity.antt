-- ===== src/Identity.antt =====
-- Single sign-on (apps/api/src/modules/identity): the cache of single-use values, the OIDC and SAML
-- callbacks, and the login that they end in.
pub mod Cache
pub mod Providers
pub mod Sso
pub mod Replay
pub mod CacheMap
pub mod Refinement
