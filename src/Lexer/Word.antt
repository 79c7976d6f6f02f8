-- ===== src/Lexer/Word.antt =====
-- `lexer_identifier` of src/syntax/lexer.c, with its keywords.
use gab.Prelude.{ℕ, Bool, true, false, ◌&&◌, List, [], ◌∷◌, ◌==◌, if◌then◌else◌}
use gab.Lexer.Tokens.{TokenType, codes}
use gab.Lexer.Cursor.{is_ident_char, eat_while, Lexer, Token, token_create_ref, at_cursor}

-- `string_ref_equals_cstr`.
unfoldable pub text_equals : List ℕ → List ℕ → Bool
text_equals [] [] = true
text_equals (c ∷ cs) (d ∷ ds) = c == d && text_equals cs ds
text_equals [] (d ∷ ds) = false
text_equals (c ∷ cs) [] = false

-- The words that `lexer_identifier` compares with, in its order.
abbrev pub keywords : List (List ℕ × TokenType)
keywords =
    (codes "let", TokenType.let_word)
    ∷ (codes "if", TokenType.if_word)
    ∷ (codes "else", TokenType.else_word)
    ∷ (codes "for", TokenType.for_word)
    ∷ (codes "break", TokenType.break_word)
    ∷ (codes "continue", TokenType.continue_word)
    ∷ (codes "func", TokenType.func_word)
    ∷ (codes "struct", TokenType.struct_word)
    ∷ (codes "impl", TokenType.impl_word)
    ∷ (codes "interface", TokenType.interface_word)
    ∷ (codes "as", TokenType.as_word)
    ∷ (codes "extern", TokenType.extern_word)
    ∷ (codes "intrinsic", TokenType.intrinsic_word)
    ∷ (codes "caller", TokenType.caller_word)
    ∷ (codes "module", TokenType.module_word)
    ∷ (codes "import", TokenType.import_word)
    ∷ (codes "return", TokenType.return_word)
    ∷ (codes "true", TokenType.true_word)
    ∷ (codes "false", TokenType.false_word)
    ∷ []

unfoldable pub word_type : List (List ℕ × TokenType) → List ℕ → TokenType
word_type [] lexeme = TokenType.ident
word_type ((word, type) ∷ rest) lexeme =
    if text_equals lexeme word then type else word_type rest lexeme

-- `lexer_identifier`.
unfoldable pub lexer_identifier : Lexer → Token × Lexer
unfolding eat_while is_ident_char word_type text_equals
lexer_identifier lexer =
    let (lexeme, cursor) = eat_while is_ident_char lexer.cursor.rest lexer.cursor.position in
    (token_create_ref lexer (word_type keywords lexeme) lexeme, at_cursor lexer cursor)
