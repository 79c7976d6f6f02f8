-- ===== src/Lexer/Literal.antt =====
-- `lexer_number` and `lexer_string` of src/syntax/lexer.c.
use gab.Prelude.{
  ℕ, ◌+◌, ◌-◌, ◌*◌, ◌^◌, not, ◌&&◌, ◌||◌, Option, none, some, List, [], ◌∷◌, ◌==◌, ltb,
  if◌then◌else◌,
}
use gab.Mir.{Span}
use gab.Lexer.Tokens.{TokenType}
use gab.Lexer.Cursor.{
  Position, Cursor, advance, peek, peek_next, eat, is_digit, eat_while, Lexer, Token, span_of,
  token_create, token_create_value, at_cursor, error, out_of_range, unterminated_string,
  unknown_escape, as_int, as_float, as_string,
}

-- C's `strtoll` in base 10 on digits: the value, or nothing where it is out of the range of 64 bits.
abbrev pub decimal : ℕ → List ℕ → ℕ
decimal value [] = value
decimal value (d ∷ ds) = decimal (value * 10 + (d - b'0')) ds

unfoldable pub strtoll : List ℕ → Option ℕ
strtoll digits = if ltb (decimal 0 digits) (2 ^ 63) then some (decimal 0 digits) else none

abbrev pub int_token : Lexer → Option ℕ → Token × Lexer
int_token lexer (some value) =
    (token_create_value lexer TokenType.int_literal (as_int value), lexer)
int_token lexer none = (token_create lexer TokenType.invalid, error lexer out_of_range lexer.start)

-- `lexer_number`.
unfoldable pub lexer_number : (List ℕ → ℕ) → Lexer → Token × Lexer
unfolding eat_while eat strtoll
lexer_number strtof lexer =
    let (digits, cursor) = eat_while is_digit lexer.cursor.rest lexer.cursor.position in
    let dotted = eat cursor in
    let fraction = (eat_while is_digit dotted.rest dotted.position).1 in
    if peek cursor.rest == b'.' && not (peek_next cursor.rest == b'.')
    then (
      token_create_value lexer TokenType.float_literal (as_float (strtof lexer.cursor.rest)),
      at_cursor lexer fraction,
    )
    else int_token (at_cursor lexer cursor) (strtoll digits)

unfoldable pub escape_value : ℕ → Option ℕ
escape_value c =
    if c == b'n'
    then some b'\n'
    else if c == b't'
    then some b'\t'
    else if c == b'0'
    then some 0
    else if c == b'\\'
    then some b'\\'
    else if c == b'"'
    then some b'"'
    else none

-- How the loop of `lexer_string` ends.
pub data StringEnd : Type 0 where
  closed : List ℕ → StringEnd
  unterminated : StringEnd
  bad_escape : Span → ℕ → StringEnd

abbrev pub prepend : ℕ → StringEnd × Cursor → StringEnd × Cursor
prepend c (closed text, cursor) = (closed (c ∷ text), cursor)
prepend c (unterminated, cursor) = (unterminated, cursor)
prepend c (bad_escape span e, cursor) = (bad_escape span e, cursor)

-- The byte of an escape and what follows it, or the escape that is unknown.
abbrev pub escaped : Option ℕ → Span → ℕ → Cursor → StringEnd × Cursor → StringEnd × Cursor
escaped none span e here after = (bad_escape span e, here)
escaped (some value) span e here after = prepend value after

-- The loop of `lexer_string`.
unfoldable pub string_body : List ℕ → Position → StringEnd × Cursor
unfolding escape_value
string_body [] p = (unterminated, record { rest = []; position = p })
string_body (c ∷ []) p =
    if c == b'"'
    then (closed [], record { rest = []; position = advance p c })
    else if c == 0 || c == b'\n'
    then (unterminated, record { rest = c ∷ []; position = p })
    else if c == b'\\'
    then (bad_escape (span_of p) 0, record { rest = []; position = advance p c })
    else (unterminated, record { rest = []; position = advance p c })
string_body (c ∷ d ∷ cs) p =
    let after = string_body (d ∷ cs) (advance p c) in
    let after_escape = string_body cs (advance (advance p c) d) in
    if c == b'"'
    then (closed [], record { rest = d ∷ cs; position = advance p c })
    else if c == 0 || c == b'\n'
    then (unterminated, record { rest = c ∷ d ∷ cs; position = p })
    else if c == b'\\'
    then escaped (escape_value d) (span_of p) d (record { rest = d ∷ cs; position = advance p c })
        after_escape
    else prepend c after

abbrev pub string_token : Lexer → StringEnd × Cursor → Token × Lexer
string_token lexer (closed text, cursor) =
    (token_create_value lexer TokenType.string_literal (as_string text), at_cursor lexer cursor)
string_token lexer (unterminated, cursor) = (
  token_create lexer TokenType.invalid,
  error (at_cursor lexer cursor) unterminated_string lexer.start,
)
string_token lexer (bad_escape span e, cursor) =
    (token_create lexer TokenType.invalid, error (at_cursor lexer cursor) (unknown_escape e) span)

-- `lexer_string`. The arena aborts where it has no memory, so the string is never too long.
unfoldable pub lexer_string : Lexer → Token × Lexer
unfolding string_body eat
lexer_string lexer =
    let opened = eat lexer.cursor in string_token lexer (string_body opened.rest opened.position)
