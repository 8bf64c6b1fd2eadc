-- ===== src/Terminal/Screen.antt =====
-- internal/terminal/screen.go: the screen that replays a terminal's output.
pub mod Params
pub mod Grid
pub mod Scroll
pub mod Csi
pub mod Write
pub mod Returns
pub mod Kept
pub mod Valid
pub mod Moves
pub mod Edits
pub mod Sound
pub mod Shift
pub mod Printing
