-- ===== src/Lib.antt =====
-- MATRIX: a distributed scheduler of task graphs over the key-value store ZHT.
--
-- A client makes a graph of tasks, writes a record of each task into the store and sends the tasks
-- in batches to the schedulers. A scheduler keeps the tasks in a wait queue until their records say
-- that no parent is left, then puts each where its data is, runs it, and lowers the indegree in the
-- records of its children by compare-and-swap. Idle schedulers steal from busy ones. All records and
-- messages are texts with separators, and all of them cross stream sockets.
--
-- The parts and their files:
-- - Prelude: numbers, lists, integers, texts as lists of byte codes, and Boolean tests.
-- - Text (matrix/src/util.h, matrix/src/util.cpp): `num_to_str`, `str_to_num` and `tokenize`, and the
--   formats of tasks (`taskmsg_to_str`), messages (`mm_to_str`) and records (`value_to_str`), with
--   the protocol messages of matrix/src/*.proto as records of the same fields. `str_to_num` takes
--   the width of the C++ type that is read. An `exit` or a throw is `none`.
-- - Dag (matrix/src/util.cpp): `gen_*_adjlist`, `gen_dag_indegree` and `gen_dag_parents` on ordered
--   association lists, which stand for `std::map`.
-- - Wire (matrix/src/matrix_tcp_proxy_stub.cpp, matrix/src/util.cpp, matrix/src/scheduler_stub.cpp):
--   `send_mul`, `recv_mul`, `send_big`, `recv_big`, and batches from `Peer::send_batch_tasks` to the
--   parsing that the receivers of batches share. What `recv` returns is a list of chunks. A chunk
--   ends at its first zero byte, as the buffer of `recv_bf` is read as a C string, and one that
--   fills the buffer runs on into `beyond`, the memory behind it; `IsChunk` is one that is neither.
-- - Zht (ZHT/src): the store. Zht.Interface is what schedulers and clients rely on of lookup,
--   insert and compare-and-swap, with a store in memory that meets it. Below it, from the inside out:
--   Zht.Chain and Zht.Table (ZHT/src/novoht.h, ZHT/src/novoht.cpp) the hash table, Zht.File its file,
--   Zht.Rewrite the thread that compacts the file, whose log cannot be read, as in the source;
--   Zht.Pack (ZHT/src/ZHTUtil.cpp, ZHT/src/zpack.proto) the texts of packages; Zht.Worker and Zht.Poll (ZHT/src/HTWorker.cpp,
--   ZHT/src/tcp_proxy_stub.cpp) the handlers of a server and its polling thread; Zht.Remote
--   (ZHT/src/cpp_zhtclient.cpp) the client, whose request and reply are handed over whole, and which
--   fills the interface. Zht.Blob (ZHT/src/bigdata_transfer.cpp) is how a message crosses a socket in
--   blobs. Zht.Peer has the waits of `Peer` (matrix/src/util.cpp).
-- - Scheduler (matrix/src/scheduler_stub.h, matrix/src/scheduler_stub.cpp): the state as a record,
--   one function per handler and per round of a thread: Swap (the compare-and-swap loops, with the
--   steps of other processes as a list), Notify (`notify_children`), Ready (`check_a_ready_task`,
--   `task_ready_process`), Steal (`send_task`, `choose_neigh`, `find_most_loaded_neigh`,
--   `steal_task`), Monitor (`localQueue_monitor`), Execute (`exec_a_task`), Serve (`proc_req` and
--   `recv_task_from_client`), Record (`recording_stat`, `regist`).
-- - Client (matrix/src/client_stub.cpp): `insert_taskinfo_to_zht`, `init_task` and `submit_task`.
-- - Tests: samples, and the theorems at concrete inputs.
--
-- A priority queue is a list in the order in which `pop` takes its elements. Locks are not in the
-- model: a function is what one thread does while it holds them, and what other processes do to the
-- store in between is an argument. Numbers of bytes, tasks and messages are natural numbers; where a
-- text is read into a C++ type, its width is written out.
--
-- Loops are structural, on the list that they walk, or on fuel. `send_batch_tasks` has one round
-- more of fuel than there are tasks, and each round sends a task or more. `send_big` has the length
-- of its text. The loops that wait on others, on random numbers or on rounds of stealing walk a list
-- of what they meet, and give `none` where it is too short. `readFile` and the replay of the log in
-- `merge` run on fuel: a token takes a byte or more of the file, so that more fuel than the file has
-- bytes is enough to load it.
--
-- In the store, texts hold no zero byte, a reply is empty or has a status code in front, and fits
-- into the buffers; a `fopen` of the table's file or of the log of a rewrite is an argument, and so
-- are what `pthread_create` returns and what new memory holds. The `float` ratio of a resize is a
-- fraction of naturals.
--
-- Not modelled: the proxies, epoll loops and caches of sockets of the store, which do input and
-- output; the iterators of its table, and other calls on a table while its file is rewritten; the
-- choice of a server by hash; the generated protocol code; the reading of configurations and of
-- workload files; the monitoring thread of the client; the variants of the code for `ZHT_STORAGE`,
-- which matrix/src/Makefile does not build; and time, which is an argument where it is logged. The
-- bound that the queue monitor computes in floating point is an argument too.
pub mod Prelude
pub mod Text
pub mod Dag
pub mod Wire
pub mod Zht
pub mod Scheduler
pub mod Client
pub mod Tests
