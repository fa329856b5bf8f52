-- ===== src/Common.antt =====
-- comm_network/common: the building blocks that the rest of the program shares.
pub mod BlockingCounter
pub mod Channel
pub mod Globals
pub mod IndexSequence
pub mod Traits
pub mod Preprocessor
