-- ===== src/Dlp.antt =====
-- src/dlp.rs: the Brazilian document numbers and the card numbers that are masked in the text of a response.
pub mod Digits
pub mod Luhn
pub mod Cards
mod Tests
