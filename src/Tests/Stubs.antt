-- ===== src/Tests/Stubs.antt =====
-- Stand-ins for the libraries, each with the laws that the theorems ask of it, and a small site.
pub mod Encoding
pub mod Log
pub mod Site
