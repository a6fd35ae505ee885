-- ===== src/CampagnesManager.antt =====
-- src/CampagnesManager.h and src/CampagnesManager.cpp.
pub mod Compatible
pub mod Draw
pub mod Select
pub mod Parse
pub mod Threads
pub mod Locks
pub mod Bill
pub mod Memory
