-- ===== src/Domain.antt =====
-- domain/: the vocabulary of the system and the values that cross its layers.
pub mod Enums
pub mod Results
pub mod Contexts
