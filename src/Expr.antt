-- ===== src/Expr.antt =====
-- internal/engine/context.go and internal/engine/expr.go: contexts and expressions.
mod Contexts
mod Access
mod Syntax
mod Eval
mod Substitution
mod Substituting
mod Meaning
pub mod Samples
unfoldable pub use Contexts.*
unfoldable pub use Access.*
unfoldable pub use Syntax.*
unfoldable pub use Eval.*
unfoldable pub use Substitution.*
