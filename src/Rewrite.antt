-- ===== src/Rewrite.antt =====
-- src/: the program rewritten in C++. Each part of it is a child.
pub mod System
pub mod Crypt
pub mod Compress
pub mod Block
pub mod Transport
pub mod Communicator
pub mod Mode
pub mod Config
pub mod Root
