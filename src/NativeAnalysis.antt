-- ===== src/NativeAnalysis.antt =====
-- native/src/native_analysis.py: the tree walks of the native compiler.
pub mod Cold
pub mod Calls
