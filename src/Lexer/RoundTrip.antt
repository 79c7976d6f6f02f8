-- ===== src/Lexer/RoundTrip.antt =====
-- Reading back what was written: string literals with their escapes, and the spelling of tokens.
use gab.Prelude.{
  ℕ, suc, ◌≡◌, refl, inl, inr, true, false, ◌||◌, Option, none, some, List, [], ◌∷◌, ◌++◌, arith,
  Bool-cases, ap, if◌then◌else◌, ◌==◌, length,
}
use gab.Lexer.Tokens.{TokenType, token_description}
use gab.Lexer.Cursor.{
  Position, Cursor, Lexer, Token, LexError, advance, at_cursor, eat, lexer_create,
  token_create_value, as_string,
}
use gab.Lexer.Literal.{StringEnd, closed, prepend, escape_value, string_body, lexer_string}
use gab.Lexer.Next.{lexer_next, tokens}

-- A byte as a string literal writes it.
unfoldable pub escape_byte : ℕ → List ℕ
escape_byte c =
    if c == b'\n'
    then b'\\' ∷ b'n' ∷ []
    else if c == b'\t'
    then b'\\' ∷ b't' ∷ []
    else if c == 0
    then b'\\' ∷ b'0' ∷ []
    else if c == b'\\'
    then b'\\' ∷ b'\\' ∷ []
    else if c == b'"'
    then b'\\' ∷ b'"' ∷ []
    else c ∷ []

-- A text as a string literal, and what follows it.
unfoldable pub print_string : List ℕ → List ℕ → List ℕ
unfolding escape_byte
print_string [] rest = b'"' ∷ rest
print_string (c ∷ text) rest = escape_byte c ++ print_string text rest

-- The loop of `lexer_string` has read a text, and this is left.
record Reads (text rest : List ℕ) (r : StringEnd × Cursor) : Type 0 where
  past : Position
  done : r ≡ (closed text, record { rest = rest; position = past })

prepend-Reads :
    (c : ℕ) (text rest : List ℕ) (r : StringEnd × Cursor)
    → Reads text rest r
    → Reads (c ∷ text) rest (prepend c r)
prepend-Reads c text rest r h = record { past = h.past; done = ap (prepend c) h.done }

-- The byte after the backslash that stands for one.
string_body-escape :
    (d value : ℕ) (text rest : List ℕ) (p : Position)
    → escape_value d ≡ some value
    → Reads text rest (string_body (print_string text rest) (advance (advance p b'\\') d))
    → Reads (value ∷ text) rest (string_body (b'\\' ∷ d ∷ print_string text rest) p)
unfolding string_body
string_body-escape d value text rest p h r = rw h (
    prepend-Reads value text rest
      (string_body (print_string text rest) (advance (advance p b'\\') d)) r)

byte_of : (c d : ℕ) → (c == d) ≡ true → d ≡ c
byte_of c d h = ground arith

plain_byte : (c : ℕ) → (c == b'\n') ≡ false → (c == 0) ≡ false → (c == 0 || c == b'\n') ≡ false
plain_byte c h k = ground arith

string_body-plain :
    (c : ℕ) (cs : List ℕ) (p : Position)
    → (c == b'"') ≡ false
    → (c == 0 || c == b'\n') ≡ false
    → (c == b'\\') ≡ false
    → string_body (c ∷ cs) p ≡ prepend c (string_body cs (advance p c))
unfolding string_body
string_body-plain c [] p h k l = rw (h, k, l) refl
string_body-plain c (d ∷ cs) p h k l = rw (h, k, l) refl

string_body-print_string :
    (text rest : List ℕ) (p : Position) → Reads text rest (string_body (print_string text rest) p)
unfolding string_body print_string
string_body-print_string [] rest p = from_quote rest
  where
    from_quote : (cs : List ℕ) → Reads [] cs (string_body (b'"' ∷ cs) p)
    from_quote [] = record { past = advance p b'"'; done = refl }
    from_quote (d ∷ cs) = record { past = advance p b'"'; done = refl }
string_body-print_string (c ∷ text) rest p =
    let escape : (d : ℕ)
        → escape_value d ≡ some c
        → Reads (c ∷ text) rest (string_body (b'\\' ∷ d ∷ print_string text rest) p) =
      λ d h.
        string_body-escape d c text rest p h
          (string_body-print_string text rest (advance (advance p b'\\') d)) in
    elim (Bool-cases (c == b'\n')) [
      | inl h ↦ rw h (escape b'n' (ap some (byte_of c b'\n' h)))
      | inr no_line ↦ elim (Bool-cases (c == b'\t')) [
        | inl h ↦ rw (no_line, h) (escape b't' (ap some (byte_of c b'\t' h)))
        | inr no_tab ↦ elim (Bool-cases (c == 0)) [
          | inl h ↦ rw (no_line, no_tab, h) (escape b'0' (ap some (byte_of c 0 h)))
          | inr no_zero ↦ elim (Bool-cases (c == b'\\')) [
            | inl h ↦ rw (no_line, no_tab, no_zero, h) (escape b'\\' (ap some (byte_of c b'\\' h)))
            | inr no_escape ↦ elim (Bool-cases (c == b'"')) [
              | inl h ↦
                  rw (no_line, no_tab, no_zero, no_escape, h)
                    (escape b'"' (ap some (byte_of c b'"' h)))
              | inr no_quote ↦
                  rw
                    (
                      no_line,
                      no_tab,
                      no_zero,
                      no_escape,
                      no_quote,
                      string_body-plain c (print_string text rest) p no_quote
                          (plain_byte c no_line no_zero) no_escape,
                    )
                    (prepend-Reads c text rest (string_body (print_string text rest) (advance p c))
                      (string_body-print_string text rest (advance p c)))
            ]
          ]
        ]
      ]
    ]

abbrev pub at_literal : Lexer → List ℕ → List ℕ → Position → Lexer
at_literal lexer text rest p =
    at_cursor lexer (record { rest = b'"' ∷ print_string text rest; position = p })

abbrev pub StringRead : Lexer → List ℕ → List ℕ → Token × Lexer → Type 0
StringRead lexer text rest r =
    (r.0 ≡ token_create_value lexer TokenType.string_literal (as_string text))
    × (r.1.cursor.rest ≡ rest)
    × (r.1.errors ≡ lexer.errors)

-- Lexing the literal of a text at any place, whatever follows it, gives the string token of that
-- text, leaves what follows, and reports no error.
pub lexer_string-print_string :
    (lexer : Lexer) (text rest : List ℕ) (p : Position)
    → StringRead lexer text rest (lexer_string (at_literal lexer text rest p))
unfolding lexer_string eat
lexer_string-print_string lexer text rest p =
    let r = string_body-print_string text rest (advance p b'"') in rw r.done ((refl, refl, refl))

-- The text between the first byte and the last.
unfoldable without_last : List ℕ → List ℕ
without_last [] = []
without_last (c ∷ []) = []
without_last (c ∷ d ∷ cs) = c ∷ without_last (d ∷ cs)

abbrev unquoted : List ℕ → Option (List ℕ)
unquoted [] = none
unquoted (c ∷ cs) = if c == b'\'' then some (without_last cs) else none

-- How a token is spelled, where the diagnostics say it: what they put in quotes.
unfoldable pub spelling : TokenType → Option (List ℕ)
unfolding without_last token_description
spelling type = unquoted (token_description type)

-- The kinds of the tokens of a run, and its errors.
abbrev pub kinds : List Token → List TokenType
kinds [] = []
kinds (t ∷ ts) = t.type ∷ kinds ts

abbrev pub summary : Option (List Token × Lexer) → Option (List TokenType × List LexError)
summary none = none
summary (some (ts, last)) = some (kinds ts, last.errors)

abbrev pub Relexes : (List ℕ → ℕ) → TokenType → Option (List ℕ) → Type 0
Relexes strtof type none = Unit
Relexes strtof type (some text) =
    summary (tokens strtof (suc (length text)) (lexer_create text))
    ≡ some (type ∷ TokenType.eof ∷ [], [])

-- Each operator, punctuation mark and keyword is lexed from the spelling that the diagnostics give
-- for it: that text has this one token and then the end of input, and no error.
pub spelling-Relexes :
    (strtof : List ℕ → ℕ) (type : TokenType) → Relexes strtof type (spelling type)
unfolding spelling tokens lexer_next lexer_create
spelling-Relexes strtof TokenType.invalid = tt
spelling-Relexes strtof TokenType.eof = tt
spelling-Relexes strtof TokenType.int_literal = tt
spelling-Relexes strtof TokenType.float_literal = tt
spelling-Relexes strtof TokenType.string_literal = tt
spelling-Relexes strtof TokenType.ident = tt
spelling-Relexes strtof TokenType.plus = refl
spelling-Relexes strtof TokenType.minus = refl
spelling-Relexes strtof TokenType.mul = refl
spelling-Relexes strtof TokenType.div = refl
spelling-Relexes strtof TokenType.mod_sign = refl
spelling-Relexes strtof TokenType.assign = refl
spelling-Relexes strtof TokenType.plus_eq = refl
spelling-Relexes strtof TokenType.minus_eq = refl
spelling-Relexes strtof TokenType.mul_eq = refl
spelling-Relexes strtof TokenType.div_eq = refl
spelling-Relexes strtof TokenType.mod_eq = refl
spelling-Relexes strtof TokenType.not_sign = refl
spelling-Relexes strtof TokenType.less = refl
spelling-Relexes strtof TokenType.greater = refl
spelling-Relexes strtof TokenType.equal = refl
spelling-Relexes strtof TokenType.nequal = refl
spelling-Relexes strtof TokenType.lequal = refl
spelling-Relexes strtof TokenType.gequal = refl
spelling-Relexes strtof TokenType.and_sign = refl
spelling-Relexes strtof TokenType.amp = refl
spelling-Relexes strtof TokenType.or_sign = refl
spelling-Relexes strtof TokenType.lparen = refl
spelling-Relexes strtof TokenType.rparen = refl
spelling-Relexes strtof TokenType.lbrace = refl
spelling-Relexes strtof TokenType.rbrace = refl
spelling-Relexes strtof TokenType.lbracket = refl
spelling-Relexes strtof TokenType.rbracket = refl
spelling-Relexes strtof TokenType.semicolon = refl
spelling-Relexes strtof TokenType.colon = refl
spelling-Relexes strtof TokenType.colon_colon = refl
spelling-Relexes strtof TokenType.comma = refl
spelling-Relexes strtof TokenType.dot = refl
spelling-Relexes strtof TokenType.dot_dot = refl
spelling-Relexes strtof TokenType.let_word = refl
spelling-Relexes strtof TokenType.func_word = refl
spelling-Relexes strtof TokenType.extern_word = refl
spelling-Relexes strtof TokenType.intrinsic_word = refl
spelling-Relexes strtof TokenType.caller_word = refl
spelling-Relexes strtof TokenType.builtin = tt
spelling-Relexes strtof TokenType.struct_word = refl
spelling-Relexes strtof TokenType.impl_word = refl
spelling-Relexes strtof TokenType.interface_word = refl
spelling-Relexes strtof TokenType.as_word = refl
spelling-Relexes strtof TokenType.module_word = refl
spelling-Relexes strtof TokenType.import_word = refl
spelling-Relexes strtof TokenType.return_word = refl
spelling-Relexes strtof TokenType.if_word = refl
spelling-Relexes strtof TokenType.else_word = refl
spelling-Relexes strtof TokenType.for_word = refl
spelling-Relexes strtof TokenType.break_word = refl
spelling-Relexes strtof TokenType.continue_word = refl
spelling-Relexes strtof TokenType.true_word = refl
spelling-Relexes strtof TokenType.false_word = refl
