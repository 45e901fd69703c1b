-- ===== src/Definition.antt =====
-- internal/domain/definition: the process definition, its validation and its index.
pub mod Event
pub mod Model
pub mod Approval
pub mod Rules
pub mod Validate
pub mod Registry
pub mod Return
mod Tests
pub mod Expression
pub mod Boundary
