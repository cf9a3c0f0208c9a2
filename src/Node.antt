-- ===== src/Node.antt =====
-- main/node_task.c: what a node does with the messages that it reads from the mesh.
pub mod Handlers
pub mod Task
pub mod Ping
pub mod Lamp
mod Tests
