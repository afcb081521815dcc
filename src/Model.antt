-- ===== src/Model.antt =====
-- What the components share: the enumerations (enums.py), JSON values and numbers, the errors and
-- the monad of methods, and the boundary to pydantic (_model.py).
pub mod Enums
pub mod Number
pub mod Json
pub mod Exec
pub mod Host
pub mod Errors
