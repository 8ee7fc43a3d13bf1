-- ===== src/IamPolicy.antt =====
-- pkg/iampolicy: policy documents, pattern matching, policy variables, conditions, evaluation.
pub mod Glob
pub mod Variables
pub mod Patterns
pub mod Comparison
pub mod Operators
pub mod Numbers
pub mod Dates
pub mod Addresses
pub mod Conditions
pub mod Json
pub mod Documents
pub mod Evaluator
mod Samples
