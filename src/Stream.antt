-- ===== src/Stream.antt =====
-- stream.py
pub mod TimeBucket
pub mod Translator
