-- ===== src/Operator.antt =====
-- The operator itself, in Go: the conditions and the status of a Coherence resource
-- (api/v1/conditions.go, api/v1/coherenceresource_types.go), the scaling of its StatefulSet
-- (controllers/statefulset/statefulset_controller.go) and the rolling upgrade by node
-- (controllers/statefulset/upgrade_strategy.go).
pub mod Conditions
pub mod Status
pub mod Scaling
pub mod Upgrade
