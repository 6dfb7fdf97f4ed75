-- ===== src/Buffer.antt =====
-- The bounded event buffer, app/dex/event_buffer.py.
pub mod Defs
pub mod Laws
