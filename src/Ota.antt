-- ===== src/Ota.antt =====
-- Over-the-air updates: web/ota/services.py, web/ota/models.py, web/ota/auth.py and the publication
-- API of web/ota/views.py.
pub mod Catalog
pub mod Push
pub mod Url
pub mod Listing
pub mod Publish
pub mod Uniqueness
pub mod Examples
