-- ===== src/Lexer/Cursor.antt =====
-- The state of the lexer of src/syntax/lexer.c, its errors and tokens, and the loops that eat text.
use gab.Prelude.{
  ℕ, ◌+◌, Bool, true, false, ◌&&◌, ◌||◌, List, [], ◌∷◌, ◌++◌, ◌==◌, leb, if◌then◌else◌,
}
use gab.Mir.{Span}
use gab.Lexer.Tokens.{TokenType}

pub record Position : Type 0 where
  pub pos : ℕ
  pub line : ℕ
  pub column : ℕ

pub record Cursor : Type 0 where
  pub rest : List ℕ
  pub position : Position

-- What `lexer_eat` does to the position.
unfoldable pub advance : Position → ℕ → Position
advance p c =
    if c == b'\n'
    then record { pos = p.pos + 1; line = p.line + 1; column = 1 }
    else record { pos = p.pos + 1; line = p.line; column = p.column + 1 }

abbrev pub peek : List ℕ → ℕ
peek [] = 0
peek (c ∷ cs) = c

abbrev pub peek_next : List ℕ → ℕ
peek_next [] = 0
peek_next (c ∷ cs) = peek cs

-- `lexer_eat`, which the lexer does not call at the end of the text.
unfoldable pub eat : Cursor → Cursor
unfolding advance
eat cursor = elim cursor.rest [
  | [] ↦ cursor
  | c ∷ cs ↦ record { rest = cs; position = advance cursor.position c }
]

abbrev pub within : ℕ → ℕ → ℕ → Bool
within lo hi c = leb lo c && leb c hi

abbrev pub is_digit : ℕ → Bool
is_digit c = within b'0' b'9' c

abbrev pub is_alpha : ℕ → Bool
is_alpha c = within b'a' b'z' c || within b'A' b'Z' c

abbrev pub is_space : ℕ → Bool
is_space c = c == b' ' || within 9 13 c

unfoldable pub is_ident_char : ℕ → Bool
is_ident_char c = is_alpha c || is_digit c || c == b'_'

-- `while (test(lexer_peek(lexer))) lexer_eat(lexer);`, with the bytes that were eaten.
unfoldable pub eat_while : (ℕ → Bool) → List ℕ → Position → List ℕ × Cursor
eat_while test [] p = ([], record { rest = []; position = p })
eat_while test (c ∷ cs) p =
    let (eaten, cursor) = eat_while test cs (advance p c) in
    if test c then (c ∷ eaten, cursor) else ([], record { rest = c ∷ cs; position = p })

pub data Message : Type 0 where
  out_of_range unterminated_string unterminated_comment : Message
  unknown_escape unexpected_character : ℕ → Message

pub record LexError : Type 0 where
  pub message : Message
  pub span : Span

pub record Lexer : Type 0 where
  pub cursor : Cursor
  pub start : Span
  pub errors : List LexError

pub data TokenValue : Type 0 where
  no_value : TokenValue
  as_int as_float : ℕ → TokenValue
  as_string : List ℕ → TokenValue

pub record Token : Type 0 where
  pub type : TokenType
  pub lexeme : List ℕ
  pub value : TokenValue
  pub span : Span

-- `lexer_create`.
unfoldable pub lexer_create : List ℕ → Lexer
lexer_create source = record {
  cursor = record { rest = source; position = record { pos = 0; line = 1; column = 1 } };
  start = record { line = 1; column = 1 };
  errors = [];
}

abbrev pub span_of : Position → Span
span_of p = record { line = p.line; column = p.column }

abbrev pub token_create : Lexer → TokenType → Token
token_create lexer type = record { type = type; lexeme = []; value = no_value; span = lexer.start }

abbrev pub token_create_value : Lexer → TokenType → TokenValue → Token
token_create_value lexer type value = record {
  type = type;
  lexeme = [];
  value = value;
  span = lexer.start;
}

abbrev pub token_create_ref : Lexer → TokenType → List ℕ → Token
token_create_ref lexer type lexeme = record {
  type = type;
  lexeme = lexeme;
  value = no_value;
  span = lexer.start;
}

abbrev pub at_cursor : Lexer → Cursor → Lexer
at_cursor lexer cursor = record lexer { cursor = cursor }

abbrev pub error : Lexer → Message → Span → Lexer
error lexer message span = record lexer {
  errors = lexer.errors ++ record { message = message; span = span } ∷ [];
}

-- The end of a block comment: whether it was found, and the cursor past it.
unfoldable pub skip_block : List ℕ → Position → Bool × Cursor
skip_block [] p = (false, record { rest = []; position = p })
skip_block (c ∷ []) p =
    if c == 0
    then (false, record { rest = c ∷ []; position = p })
    else (false, record { rest = []; position = advance p c })
skip_block (c ∷ d ∷ cs) p =
    let past = skip_block (d ∷ cs) (advance p c) in
    if c == b'*' && d == b'/'
    then (true, record { rest = cs; position = advance (advance p c) d })
    else if c == 0
    then (false, record { rest = c ∷ d ∷ cs; position = p })
    else past
