-- ===== src/Riscv.antt =====
-- riscv-pipelined-cpu-sim: a pipelined RV32I processor, its modules and its pipeline.
pub mod Exceptions
pub mod Extension
pub mod Gates
pub mod Alu
pub mod Cmp
pub mod Register
pub mod RegFile
pub mod Bytes
pub mod DataMem
pub mod InstrMem
pub mod Instruction
pub mod ControlUnit
pub mod State
pub mod Stages
pub mod Hazard
pub mod Pipeline
mod Tests
