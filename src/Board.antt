-- ===== src/Board.antt =====
-- packages/api: the handlers of the board's API, over a queue of which they see what its adapter returns.
pub mod Bulk
