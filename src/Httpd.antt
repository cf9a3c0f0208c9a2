-- ===== src/Httpd.antt =====
-- main/app_httpd.c: the web server of a device in station mode.
pub mod Filter
pub mod Control
pub mod Decimal
pub mod Status
pub mod Stream
mod Tests
