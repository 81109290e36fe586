-- ===== src/Api.antt =====
-- The read-only API of web/api: the keys, the query parameters, and the pages that it serves.
pub mod Keys
pub mod Range
pub mod Page
pub mod Views
pub mod Paging
pub mod Served
pub mod Guarded
pub mod Examples
