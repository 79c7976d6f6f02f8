-- ===== src/Lexer/Trivia.antt =====
-- `lexer_skip_trivia` of src/syntax/lexer.c: spaces and comments.
use gab.Prelude.{ℕ, zero, suc, not, ◌||◌, Option, none, some, ◌==◌, if◌then◌else◌}
use gab.Lexer.Cursor.{
  peek, peek_next, eat, is_space, eat_while, Lexer, span_of, at_cursor, error, skip_block,
  unterminated_comment,
}

-- `lexer_skip_trivia`. Each turn of the loop takes fuel; `none` means that it ran out.
unfoldable pub skip_trivia : ℕ → Lexer → Option Lexer
unfolding eat_while skip_block eat
skip_trivia zero lexer = none
skip_trivia (suc fuel) lexer =
    let spaced = (eat_while is_space lexer.cursor.rest lexer.cursor.position).1 in
    let after_line = (eat_while (λ c. not (c == b'\n' || c == 0)) spaced.rest spaced.position).1 in
    let opened = eat (eat spaced) in
    let (closed, after_block) = skip_block opened.rest opened.position in
    let past_line = skip_trivia fuel (at_cursor lexer after_line) in
    let past_block = skip_trivia fuel (at_cursor lexer after_block) in
    if not (peek spaced.rest == b'/')
    then some (at_cursor lexer spaced)
    else if peek_next spaced.rest == b'/'
    then past_line
    else if peek_next spaced.rest == b'*'
    then if closed
      then past_block
      else some (error (at_cursor lexer after_block) unterminated_comment (span_of spaced.position))
    else some (at_cursor lexer spaced)
