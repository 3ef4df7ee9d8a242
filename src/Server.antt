-- ===== src/Server.antt =====
-- The process of src/proxy/main.cc and src/proxy/proxy.cc: options, dispatch, workers and callbacks.
pub mod Options
pub mod Dispatch
pub mod State
pub mod Workers
pub mod System
pub mod Main
