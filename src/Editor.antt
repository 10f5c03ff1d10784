-- ===== src/Editor.antt =====
-- The line editor of src/editor.c.
pub mod Buffer
pub mod RoundTrip
