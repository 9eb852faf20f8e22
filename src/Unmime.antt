-- ===== src/Unmime.antt =====
-- unmime.c: the decoding of MIME headers and bodies.
pub mod Body
pub mod ContentType
pub mod Quoted
pub mod QuotedLaws
pub mod Header
pub mod HeaderBounds
