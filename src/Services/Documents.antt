-- ===== src/Services/Documents.antt =====
-- app/services/documents.py and app/storage/local.py. What the code takes from hashlib, zipfile and
-- the UTF-8 codec is a record of functions; the stored files are a set of (tenant, hash) keys; what
-- other sessions commit between two statements of a flow is a function on the database.
pub mod Upload
pub mod Delete
pub mod Read
