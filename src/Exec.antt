-- ===== src/Exec.antt =====
-- @actions/exec in dist/index.js of .github/actions/setup-oras-2.0.1 (lib/exec.js and
-- lib/toolrunner.js): one module for each part of running a command.
pub mod ArgString
pub mod Quote
pub mod LineBuffer
pub mod State
pub mod Runner
pub mod Settle
