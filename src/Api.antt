-- ===== src/Api.antt =====
-- The package gapdb: the data of the public interface, its errors and its validation.
pub mod Errors
pub mod Types
pub mod Options
pub mod Validate
