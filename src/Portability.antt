-- ===== src/Portability.antt =====
-- apps/api/app/export_import.py: the export of a project's episodes as JSON, and their import.
pub mod Export
pub mod Import
