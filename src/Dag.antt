-- ===== src/Dag.antt =====
-- Task graphs (matrix/src/util.cpp, `gen_bot_adjlist` to `gen_dag_parents`): a graph of `numTask`
-- tasks is a map from each task to its children.
pub mod OrderedMap
pub mod Loop
pub mod Generate
pub mod Edges
pub mod Forward
pub mod Degree
pub mod Parents
pub mod Shape
