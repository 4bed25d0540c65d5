-- ===== src/Shell.antt =====
-- shell/src: the package manager of the shell.
pub mod Packages
