-- ===== src/Client.antt =====
-- `MatrixClient` (matrix/src/client_stub.h, matrix/src/client_stub.cpp): it puts a graph of tasks
-- into the store and hands the tasks to the schedulers.
pub mod Submit
pub mod Deal
