-- ===== src/Memory.antt =====
-- The mapped file as bytes, and the C memory operations that src/pupa_store.c uses on it:
-- little-endian loads and stores of a field, memcpy and memmove.
--
-- An address is an offset from the start of the mapping (`ctx->store_hdr`).
mod Load
mod Put
unfoldable pub use Load.*
unfoldable pub use Put.*
