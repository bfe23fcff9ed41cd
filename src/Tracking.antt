-- ===== src/Tracking.antt =====
-- tmp/: the program that steers a camera after a teacher and watches for students. What the camera,
-- the images and the configuration answer is not part of it.
pub mod Config
pub mod Points
pub mod Tasks
pub mod Mask
pub mod Tracker
pub mod MountKeys
pub mod Keys
pub mod Stamps
pub mod Areas
pub mod Frames
pub mod Analyze
pub mod Working
pub mod Views
pub mod Worker
pub mod Student
pub mod Tdt
