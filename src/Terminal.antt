-- ===== src/Terminal.antt =====
-- internal/terminal: what reaches the terminal.
pub mod Sanitize
