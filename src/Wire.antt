-- ===== src/Wire.antt =====
-- The constants, message tags and packed layouts of main/include/common.h: sizes in bytes, and the
-- offset of each member from the start of the structure that holds it.
pub mod Sizes
pub mod BusCmd
pub mod BusStatus
pub mod BusType
pub mod LightColor
pub mod QueueMsg
pub mod Msg
pub mod RootMsg
pub mod ChildRegister
pub mod ChildUnregister
pub mod RespRestart
pub mod DeviceVersion
pub mod RootPing
pub mod DeviceOta
pub mod DeviceRestart
pub mod NodePic
pub mod WorkMode
pub mod Layout
pub use Sizes.*
