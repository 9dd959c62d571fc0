-- ===== src/Router.antt =====
-- apple-wrapper/router: the choice between proxy, direct and block for a destination.
pub mod Rules
pub mod Domains
pub mod Ip
pub mod Addresses
pub mod Search
pub mod China
pub mod Builtin
pub mod Decision
pub mod Direct
