-- ===== src/Dockerfile.antt =====
-- pkg/dockerfilepreprocess: legacy shell heredocs become heredocs of COPY.
pub mod Lines
pub mod Legacy
pub mod Heredocs
pub mod Transform
pub mod Splitting
pub mod Rewriting
pub mod Whole
