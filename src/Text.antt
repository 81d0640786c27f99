-- ===== src/Text.antt =====
-- Texts that cross a wire or stand in the store: numbers, tokens and the message formats
-- (matrix/src/util.h, matrix/src/util.cpp).
pub mod Number
pub mod Token
pub mod Field
pub mod TaskMsg
pub mod MatrixMsg
pub mod Value
