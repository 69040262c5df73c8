-- ===== src/Qik.antt =====
-- MotorDriver/Qik2s9v1.c and Qik2s9v1.h: the driver of the motor controller.
pub mod State
pub mod Queue
pub mod Commands
pub mod Response
pub mod Serial
pub mod Threads
pub mod Workers
pub mod Typed
pub mod Whole
pub mod Motor
mod Tests
