-- ===== src/PathScope.antt =====
-- framework/path_scope.py: when an allow path or glob lies within a Goal contract's ceiling.
-- `str.lower` and `fnmatch.fnmatchcase` are parameters. `execution_path_allowed` is not modelled: it
-- asks the file system for real paths.
mod Parsing
mod Globs
mod Matching
mod Covering
pub mod Trees
pub mod Narrowing
mod Sound
pub mod Allowing
pub mod Escaping
mod Tests
unfoldable pub use Parsing.*
unfoldable pub use Globs.*
unfoldable pub use Covering.*
