-- ===== src/Wrapper.antt =====
-- apple-wrapper: the code behind the ABI of the packet tunnel.
pub mod Sniffer
pub mod Engine
pub mod Netstack
pub mod Connections
pub mod Startup
pub mod Proxying
pub mod Bridge
pub mod Stats
