-- ===== src/Worker.antt =====
-- The inspection worker (services/vision/worker).
pub mod Client
pub mod Orders
pub mod Images
pub mod Results
pub mod State
pub mod Cycle
pub mod Loop
