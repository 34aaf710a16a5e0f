-- ===== src/Failure.antt =====
-- How an executor pool decides that it has failed: the scrolling counter, the failure policies and
-- the enforcers made from them.
pub mod Counter
pub mod Enforcer
