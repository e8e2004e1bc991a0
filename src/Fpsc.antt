-- ===== src/Fpsc.antt =====
-- The one-producer one-consumer channel of src/fpsc/.
pub mod Ringbuf
pub mod Producer
pub mod Consumer
pub mod Calls
pub mod Transfer
pub mod Streaming
pub mod Handles
pub mod ReadBack
