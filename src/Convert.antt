-- ===== src/Convert.antt =====
-- server/internal/convert: model names, the cache of tool signatures, counts of tokens, and streams.
pub mod Catalog
pub mod Signatures
pub mod Values
pub mod Usage
pub mod Mix
pub mod Stream
pub mod Generation
pub mod Contents
pub mod Inner
pub mod ClaudeStream
pub mod Variants
