-- ===== src/Kv.antt =====
-- The key-value server of kv/.
pub mod Protocol
pub mod MessageLoop
pub mod Server
