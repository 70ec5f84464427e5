-- ===== src/Ginkgo.antt =====
-- ginkgo: the script language.
pub mod Integer
pub mod Value
pub mod Names
pub mod Opcode
pub mod Chunk
pub mod Vm
pub mod Lex
pub mod Parse
