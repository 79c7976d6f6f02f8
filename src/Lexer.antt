-- ===== src/Lexer.antt =====
-- src/syntax/lexer.c: the lexer.
--
-- The text is a list of bytes without the terminating zero; a read at its end gives zero. A cursor
-- holds what is left of the text in place of a pointer into it. The characters are classed as the C
-- locale does. `strtof` is a parameter; `strtoll` is C's, on the digits it is called for. The scratch
-- buffer of a string is the list of its bytes, and a string is not interned here: its token holds the
-- text. A message is one of the kinds below.
pub mod Comments
pub mod Cursor
pub mod Ends
pub mod Literal
pub mod Moves
pub mod Next
pub mod Places
pub mod Progress
pub mod RoundTrip
pub mod Skipped
pub mod Spans
mod Tests
pub mod Texts
pub mod Tokens
pub mod Total
pub mod Trivia
pub mod Word
