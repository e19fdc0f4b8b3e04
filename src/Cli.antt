-- ===== src/Cli.antt =====
-- The command line tool of cli/cargo-ohrs.
pub mod Arch
pub mod Path
pub mod Soname
pub mod Artifact
pub mod TypeDef
pub mod Indent
mod Tests
