-- ===== src/Trigger.antt =====
-- The sources of the signal to take a picture (services/vision/acquisition/trigger.py).
pub mod Files
pub mod Gpio
pub mod Vision
