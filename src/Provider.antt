-- ===== src/Provider.antt =====
-- src/provider/: what does not touch the network.
pub mod Sse
