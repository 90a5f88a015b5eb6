-- ===== src/Fat.antt =====
-- kernel/fattab.c: reading and writing the entries of a file allocation table through the buffer
-- cache. A buffer is found by its sector; the cache is seen as `getblock` presents it, a buffer for
-- each sector that can be read. `unsigned` has 16 bits and `CLUSTER` 32.
pub mod Entry
pub mod Link
mod Tests
