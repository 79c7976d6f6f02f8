-- ===== src/Lexer/Tests.antt =====
-- Runs of the lexer, and its theorems on concrete texts.
use gab.Prelude.{ℕ, suc, ◌≡◌, refl, List, [], ◌∷◌, some, length}
use gab.Lexer.Tokens.{TokenType, codes}
use gab.Lexer.Cursor.{Position, Lexer, lexer_create}
use gab.Lexer.Comments.{Skipped}
use gab.Lexer.Skipped.{skip_trivia_lem}
use gab.Lexer.Trivia.{skip_trivia}
use gab.Lexer.Next.{lexer_next, tokens}
use gab.Lexer.Ends.{Lexed, tokens-Lexed}
use gab.Lexer.RoundTrip.{
  StringRead, at_literal, lexer_string-print_string, summary, Relexes, spelling, spelling-Relexes,
}
use gab.Lexer.Literal.{lexer_string}

abbrev length_of : List ℕ → ℕ
length_of cs = length cs

abbrev program : List ℕ
program = codes "let x /* y */ += 12;\n// z\n  return @f == 1.5 \"a\\n\""

abbrev lexer : Lexer
lexer = lexer_create program

abbrev there : Position
there = record { pos = 4; line = 2; column = 3 }

run :
    summary (tokens length_of (suc (length program)) (lexer_create program))
    ≡ some (
      TokenType.let_word ∷ TokenType.ident ∷ TokenType.plus_eq ∷ TokenType.int_literal
          ∷ TokenType.semicolon ∷ TokenType.return_word ∷ TokenType.builtin ∷ TokenType.equal
          ∷ TokenType.float_literal ∷ TokenType.string_literal ∷ TokenType.eof ∷ [],
      [],
    )
unfolding tokens lexer_next lexer_create
run = refl

tokens_example : Lexed program (tokens length_of (suc (length program)) (lexer_create program))
tokens_example = tokens-Lexed length_of program

lexer_string_example :
    StringRead lexer
      (codes "a\"b\n")
      program
      (lexer_string (at_literal lexer (codes "a\"b\n") program there))
lexer_string_example = lexer_string-print_string lexer (codes "a\"b\n") program there

spelling_example : Relexes length_of TokenType.for_word (spelling TokenType.for_word)
spelling_example = spelling-Relexes length_of TokenType.for_word

-- A space, a comment up to a newline, a block comment with a star in it, and a name.
abbrev remarks : Lexer
remarks = lexer_create (codes " // a\n\t/* * b */ c")

skip_trivia_example : Skipped remarks (skip_trivia (suc (length remarks.cursor.rest)) remarks)
skip_trivia_example = skip_trivia_lem remarks
