-- ===== src/Utils.antt =====
-- src/utils: byte buffers, errors of a platform call, and the options of a create request.
pub mod Buffers
pub mod Exceptions
pub mod Config
