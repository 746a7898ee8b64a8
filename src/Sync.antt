-- ===== src/Sync.antt =====
-- The words that the endpoints of a ring share: src/common/cursors.rs, close_state.rs,
-- endpoint_count.rs, and the counter of src/common/backoff.rs.
pub mod Cursors
pub mod CloseState
pub mod EndpointCount
pub mod Backoff
