-- ===== src/Translator.antt =====
-- BinaryTranslator-main: the translator from the commands of a stack machine to x86-64 code.
pub mod Commands
pub mod Doubles
pub mod Parser
pub mod Addresses
pub mod Optimizer
pub mod Opcodes
pub mod Units
pub mod Buffer
pub mod Program
pub mod Elf
pub mod Tests
