-- ===== src/Release.antt =====
-- CI/CD providers and releases: backend/app/services/cicd_service.py.
pub mod Model
pub mod Secrets
pub mod Runs
pub mod Service
pub mod Providers
pub mod After
pub mod Lifecycle
pub mod Traces
pub mod Seam
pub mod Tokens
mod Samples
