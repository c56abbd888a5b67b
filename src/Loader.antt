-- ===== src/Loader.antt =====
-- loader/: what keeps the lists that the pages show, and loads them from the platform. A load asks
-- for its lists at once; the answers come as events, in any order.
pub mod Lists
pub mod Resources
pub mod Applications
