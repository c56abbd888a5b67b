-- ===== src/Page.antt =====
-- component/pages and the filter of component/embeddable: the page of the modules and that of the
-- registration.
pub mod Modules
pub mod Filter
pub mod Filtering
pub mod Registration
