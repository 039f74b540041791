-- ===== src/ToolCache.antt =====
-- @actions/tool-cache in dist/index.js of .github/actions/setup-oras-2.0.1.
pub mod Retry
pub mod Download
pub mod Extract
