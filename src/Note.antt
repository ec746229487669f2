-- ===== src/Note.antt =====
-- Package note (internal/note): the notes of the users.
pub mod Table
pub mod Service
pub mod Cursors
pub mod Pages
pub mod Walk
pub mod Http
pub mod Owners
mod Examples
