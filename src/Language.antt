-- ===== src/Language.antt =====
-- ProgrammingLanguage-main: the processor that runs the byte code of the language.
pub mod Stack
pub mod Processor
pub mod Commands
pub mod Execution
pub mod Tests
