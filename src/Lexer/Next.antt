-- ===== src/Lexer/Next.antt =====
-- `lexer_next` of src/syntax/lexer.c and the cases of its switch.
use gab.Prelude.{
  ℕ, zero, suc, Bool, true, false, ◌&&◌, ◌||◌, Option, none, some, List, [], ◌∷◌, ◌==◌,
  if◌then◌else◌, length,
}
use gab.Lexer.Tokens.{TokenType}
use gab.Lexer.Cursor.{
  peek, peek_next, eat, is_digit, is_alpha, is_ident_char, eat_while, Lexer, Token, span_of,
  token_create, token_create_ref, at_cursor, error, unexpected_character,
}
use gab.Lexer.Trivia.{skip_trivia}
use gab.Lexer.Literal.{lexer_number, lexer_string}
use gab.Lexer.Word.{lexer_identifier}

-- `lexer_invalid`.
abbrev pub lexer_invalid : Lexer → ℕ → Token × Lexer
lexer_invalid lexer c =
    (token_create lexer TokenType.invalid, error lexer (unexpected_character c) lexer.start)

-- A token that `TOKEN_INVALID` stands for none of.
abbrev pub token_or_invalid : Lexer → Option TokenType → ℕ → Token × Lexer
token_or_invalid lexer (some type) c = (token_create lexer type, lexer)
token_or_invalid lexer none c = lexer_invalid lexer c

unfoldable pub lexer_handle_eq : Lexer → TokenType → TokenType → Token × Lexer
unfolding eat
lexer_handle_eq lexer base_tok eq_tok =
    if peek lexer.cursor.rest == b'='
    then (token_create lexer eq_tok, at_cursor lexer (eat lexer.cursor))
    else (token_create lexer base_tok, lexer)

unfoldable pub lexer_handle_op_eq :
    Lexer → Option TokenType → Option TokenType → ℕ → TokenType → Token × Lexer
unfolding eat
lexer_handle_op_eq lexer base_tok eq_tok op_ch op_tok =
    if peek lexer.cursor.rest == b'='
    then token_or_invalid (at_cursor lexer (eat lexer.cursor)) eq_tok op_ch
    else if peek lexer.cursor.rest == op_ch
    then (token_create lexer op_tok, at_cursor lexer (eat lexer.cursor))
    else token_or_invalid lexer base_tok op_ch

abbrev pub builtin_token : Lexer → List ℕ → Token
builtin_token lexer [] = token_create lexer TokenType.invalid
builtin_token lexer (c ∷ cs) = token_create_ref lexer TokenType.builtin (c ∷ cs)

-- The case `@` of `lexer_next`.
unfoldable pub lexer_builtin : Lexer → Token × Lexer
unfolding eat_while is_ident_char
lexer_builtin lexer =
    let (lexeme, cursor) = eat_while is_ident_char lexer.cursor.rest lexer.cursor.position in
    (builtin_token lexer lexeme, at_cursor lexer cursor)

-- The case `.` of `lexer_next`.
unfoldable pub lexer_dot : Lexer → Token × Lexer
unfolding eat
lexer_dot lexer =
    if peek lexer.cursor.rest == b'.'
    then (token_create lexer TokenType.dot_dot, at_cursor lexer (eat lexer.cursor))
    else (token_create lexer TokenType.dot, lexer)

-- What the switch of `lexer_next` does with a character.
pub data Case : Type 0 where
  single : TokenType → Case
  with_eq : TokenType → TokenType → Case
  with_op : Option TokenType → Option TokenType → ℕ → TokenType → Case
  builtin_name dots unexpected : Case

unfoldable pub case_of : ℕ → Case
case_of c =
    if c == b'+'
    then with_eq TokenType.plus TokenType.plus_eq
    else if c == b'-'
    then with_eq TokenType.minus TokenType.minus_eq
    else if c == b'*'
    then with_eq TokenType.mul TokenType.mul_eq
    else if c == b'/'
    then with_eq TokenType.div TokenType.div_eq
    else if c == b'%'
    then with_eq TokenType.mod_sign TokenType.mod_eq
    else if c == b'('
    then single TokenType.lparen
    else if c == b')'
    then single TokenType.rparen
    else if c == b'{'
    then single TokenType.lbrace
    else if c == b'}'
    then single TokenType.rbrace
    else if c == b'['
    then single TokenType.lbracket
    else if c == b']'
    then single TokenType.rbracket
    else if c == b'='
    then with_eq TokenType.assign TokenType.equal
    else if c == b'!'
    then with_eq TokenType.not_sign TokenType.nequal
    else if c == b'<'
    then with_eq TokenType.less TokenType.lequal
    else if c == b'>'
    then with_eq TokenType.greater TokenType.gequal
    else if c == b'&'
    then with_op (some TokenType.amp) none b'&' TokenType.and_sign
    else if c == b'|'
    then with_op none none b'|' TokenType.or_sign
    else if c == b'@'
    then builtin_name
    else if c == b';'
    then single TokenType.semicolon
    else if c == b':'
    then with_op (some TokenType.colon) none b':' TokenType.colon_colon
    else if c == b','
    then single TokenType.comma
    else if c == b'.'
    then dots
    else unexpected

-- The switch of `lexer_next`, after the character was eaten.
unfoldable pub lexer_case : Lexer → ℕ → Case → Token × Lexer
unfolding lexer_handle_eq lexer_handle_op_eq lexer_builtin lexer_dot
lexer_case lexer c (single type) = (token_create lexer type, lexer)
lexer_case lexer c (with_eq base_tok eq_tok) = lexer_handle_eq lexer base_tok eq_tok
lexer_case lexer c (with_op base_tok eq_tok op_ch op_tok) =
    lexer_handle_op_eq lexer base_tok eq_tok op_ch op_tok
lexer_case lexer c builtin_name = lexer_builtin lexer
lexer_case lexer c dots = lexer_dot lexer
lexer_case lexer c unexpected = lexer_invalid lexer c

abbrev pub then_others : Token → Option (List Token × Lexer) → Option (List Token × Lexer)
then_others token none = none
then_others token (some (ts, last)) = some (token ∷ ts, last)

abbrev pub is_eof : TokenType → Bool
is_eof TokenType.eof = true
is_eof _ = false

module _ (strtof : List ℕ → ℕ) where
  -- `lexer_next` after the trivia.
  unfoldable pub lexer_token : Lexer → Token × Lexer
  unfolding lexer_number lexer_identifier lexer_string lexer_case case_of eat
  lexer_token skipped =
      let lexer = record skipped { start = span_of skipped.cursor.position } in
      let rest = lexer.cursor.rest in
      let c = peek rest in
      if is_digit c || c == b'.' && is_digit (peek_next rest)
      then lexer_number strtof lexer
      else if is_alpha c || c == b'_'
      then lexer_identifier lexer
      else if c == b'"'
      then lexer_string lexer
      else if c == 0
      then (token_create lexer TokenType.eof, lexer)
      else lexer_case (at_cursor lexer (eat lexer.cursor)) c (case_of c)

  abbrev pub then_token : Option Lexer → Option (Token × Lexer)
  then_token none = none
  then_token (some skipped) = some (lexer_token skipped)

  -- `lexer_next`. The trivia have one turn for each byte that is left, and one more.
  unfoldable pub lexer_next : Lexer → Option (Token × Lexer)
  unfolding skip_trivia lexer_token
  lexer_next lexer = then_token (skip_trivia (suc (length lexer.cursor.rest)) lexer)

  -- A token and, unless it is the end of input, the tokens after it.
  abbrev pub with_others :
      (Lexer → Option (List Token × Lexer)) → Option (Token × Lexer) → Option (List Token × Lexer)
  with_others others none = none
  with_others others (some (token, after)) =
      if is_eof token.type then some (token ∷ [], after) else then_others token (others after)

  -- The tokens of a text up to the end of input, as the parser asks for them one by one. The fuel
  -- bounds their number.
  unfoldable pub tokens : ℕ → Lexer → Option (List Token × Lexer)
  tokens zero lexer = none
  tokens (suc fuel) lexer = with_others (tokens fuel) (lexer_next lexer)
