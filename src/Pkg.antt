-- ===== src/Pkg.antt =====
-- Package pkg (pkg/coins.go, pkg/utils.go), and `strings.EqualFold` as the modules use it.
pub mod Gas
pub mod Split
pub mod Fold
pub mod Tests
