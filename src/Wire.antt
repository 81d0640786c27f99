-- ===== src/Wire.antt =====
-- Byte streams between peers (matrix/src/matrix_tcp_proxy_stub.cpp) and batches of tasks on them
-- (matrix/src/util.cpp, matrix/src/scheduler_stub.cpp).
pub mod Stream
pub mod Batch
