-- ===== src/Root.antt =====
-- main/router.c on the root: the commands of the server, the messages of the nodes, the list of the
-- nodes and the registration with the server.
pub mod State
pub mod Register
pub mod RegisterLayout
pub mod Restart
pub mod RestartLaws
pub mod Command
pub mod CommandLaws
pub mod FromNode
pub mod Registration
pub mod Offline
pub mod Ping
pub mod MeshTask
pub mod Ota
pub mod Registry
pub mod Relay
pub mod System
pub mod Socket
pub mod TestData
mod Tests
mod CommandTests
