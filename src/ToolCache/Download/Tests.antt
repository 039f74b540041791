-- ===== src/ToolCache/Download/Tests.antt =====
-- The theorem about `downloadTool` at a concrete input.
