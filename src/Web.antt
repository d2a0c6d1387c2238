-- ===== src/Web.antt =====
-- main/diag_webserver.cpp: the diagnostics web server. The children hold the settings requests, the
-- texts of the status answer, and the restart of the server when the network comes back. The pages and
-- cJSON are left out.
pub mod Body
pub mod Settings
pub mod Served
pub mod Find
pub mod Applied
pub mod Escape
pub mod Json
pub mod Pages
pub mod Print
pub mod World
pub mod Routes
pub mod Strangers
pub mod Status
pub mod Start
pub mod Network
pub mod Restart
pub mod Passes
pub mod Object
pub mod Members
pub mod Texts
pub mod StatusTests
pub mod StartTests
pub mod Tests
