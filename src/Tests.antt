-- ===== src/Tests.antt =====
-- Concrete databases and externals, tests of the definitions, and the theorems at such inputs.
mod Samples
mod Sessions
mod Engine
mod Services
mod Callbacks
mod Routes
mod Browsers
mod Passkeys
mod Operations
mod Servers
