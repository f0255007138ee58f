-- ===== src/WebSdk.antt =====
-- sdks/kavach-web/src/: the SDK for browsers, by its files.
pub mod Storage
pub mod Platform
pub mod Pkce
pub mod Dpop
pub mod Shield
pub mod Client
