-- ===== src/Zht.antt =====
-- The key-value store ZHT: as its clients see it (ZHT/src/cpp_zhtclient.cpp), and the table of a
-- server (ZHT/src/novoht.cpp).
pub mod Interface
pub mod Peer
pub mod Chain
pub mod File
pub mod Table
pub mod Rewrite
pub mod Pack
pub mod Worker
pub mod Poll
pub mod Remote
pub mod Blob
