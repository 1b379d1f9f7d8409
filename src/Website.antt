-- ===== src/Website.antt =====
-- apps/website/src: the public site's own logic, one module for each file or group of files.
pub mod Amount
pub mod Institutions
pub mod Sandbox
pub mod Supply
pub mod RecordHistory
pub mod OnchainRecord
pub mod Inclusion
pub mod Contact
pub mod Api
pub mod ScrollLock
mod Blog
mod Stage
mod Sections
mod DayPicker
