-- ===== src/Fsm.antt =====
-- src/SimpleFSM.cpp: the graph of states, the shortest-path search over it and the engine that
-- walks the path. A node pointer is the id under which the node stands in `fsmNodes`.
pub mod Graph
pub mod Search
pub mod Walks
pub mod Engine
