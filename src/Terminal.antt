-- ===== src/Terminal.antt =====
-- internal/terminal: what is kept of a terminal's output, and its visible text. Texts are bytes here.
pub mod Normalize
pub mod Transcript
pub mod Visible
pub mod Tail
pub mod Screen
