-- ===== src/Handler.antt =====
-- `logcabin_redis_proxy::handler` of src/proxy/handler.h and src/proxy/handler.cc, by its parts.
pub mod Monad
pub mod Calls
pub mod Writes
pub mod Reads
pub mod Types
pub mod Safe
pub mod Answers
pub mod Safety
pub mod Shared
pub mod Follows
pub mod Atomic
pub mod Apart
pub mod Pushes
pub mod Values
pub mod Lines
pub mod ReadBack
pub mod Expire
pub mod Sets
pub mod Ranges
pub mod Elements
pub mod Turns
