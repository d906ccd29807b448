-- ===== src/Garbage.antt =====
-- The directory garbage: the earlier loader of garbage/main2.py, and the editors of configuration
-- files of garbage/config.py. The present program uses neither.
pub mod Loader
pub mod ProxyConfig
