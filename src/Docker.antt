-- ===== src/Docker.antt =====
-- What services/api/src/services/docker.ts makes of the Docker daemon's answers.
pub mod Frames
pub mod Limits
mod Tests
