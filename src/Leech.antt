-- ===== src/Leech.antt =====
-- leechVM-master: a virtual machine for a Python-like byte code.
pub mod Opcodes
pub mod Stubs
pub mod Values
pub mod Objects
pub mod Machine
pub mod Callbacks
pub mod Classes
pub mod Executor
pub mod Streams
pub mod File
pub mod Images
mod Tests
