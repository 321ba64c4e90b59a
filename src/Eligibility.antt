-- ===== src/Eligibility.antt =====
-- services/eligibility: the rule engine.
pub mod Criteria
pub mod Engine
pub mod Matcher
pub mod Validation
pub mod Tests
