-- ===== src/Lexer/Spans.antt =====
-- Each token of the lexer has the span of the byte it starts at.
use gab.Prelude.{
  ℕ, ◌≡◌, refl, inl, inr, not, ◌&&◌, ◌||◌, Option, none, some, List, [], ◌∷◌, Bool-cases, ◌==◌,
}
use gab.Lexer.Tokens.{TokenType}
use gab.Lexer.Cursor.{
  Cursor, Lexer, at_cursor, eat, eat_while, peek, peek_next, is_digit, is_alpha, is_ident_char,
  span_of,
}
use gab.Lexer.Literal.{
  StringEnd, closed, unterminated, bad_escape, int_token, strtoll, lexer_number, string_body,
  string_token, lexer_string,
}
use gab.Lexer.Word.{lexer_identifier}
use gab.Lexer.Next.{
  Case, single, with_eq, with_op, builtin_name, dots, unexpected, builtin_token, token_or_invalid,
  lexer_handle_eq, lexer_handle_op_eq, lexer_builtin, lexer_dot, lexer_case, case_of, lexer_token,
}

int_token-span : (lexer : Lexer) (o : Option ℕ) → (int_token lexer o).0.span ≡ lexer.start
int_token-span lexer none = refl
int_token-span lexer (some value) = refl

number-span :
    (strtof : List ℕ → ℕ) (lexer : Lexer) → (lexer_number strtof lexer).0.span ≡ lexer.start
unfolding lexer_number
number-span strtof lexer =
    let c = (eat_while is_digit lexer.cursor.rest lexer.cursor.position).1 in
    elim (Bool-cases (peek c.rest == b'.' && not (peek_next c.rest == b'.'))) [
      | inl float ↦ rw float refl
      | inr int ↦ rw int (
          int_token-span (at_cursor lexer c)
            (strtoll (eat_while is_digit lexer.cursor.rest lexer.cursor.position).0))
    ]

string_token-span :
    (lexer : Lexer) (r : StringEnd × Cursor) → (string_token lexer r).0.span ≡ lexer.start
string_token-span lexer (closed text, cursor) = refl
string_token-span lexer (unterminated, cursor) = refl
string_token-span lexer (bad_escape span e, cursor) = refl

token_or_invalid-span :
    (lexer : Lexer) (o : Option TokenType) (c : ℕ)
    → (token_or_invalid lexer o c).0.span ≡ lexer.start
token_or_invalid-span lexer none c = refl
token_or_invalid-span lexer (some type) c = refl

eq-span :
    (lexer : Lexer) (base_tok eq_tok : TokenType)
    → (lexer_handle_eq lexer base_tok eq_tok).0.span ≡ lexer.start
unfolding lexer_handle_eq
eq-span lexer base_tok eq_tok = elim (Bool-cases (peek lexer.cursor.rest == b'=')) [
  | inl here ↦ rw here refl
  | inr other ↦ rw other refl
]

op-span :
    (lexer : Lexer) (base_tok eq_tok : Option TokenType) (op_ch : ℕ) (op_tok : TokenType)
    → (lexer_handle_op_eq lexer base_tok eq_tok op_ch op_tok).0.span ≡ lexer.start
unfolding lexer_handle_op_eq
op-span lexer base_tok eq_tok op_ch op_tok = elim (Bool-cases (peek lexer.cursor.rest == b'=')) [
  | inl here ↦ rw here (token_or_invalid-span (at_cursor lexer (eat lexer.cursor)) eq_tok op_ch)
  | inr other ↦ elim (Bool-cases (peek lexer.cursor.rest == op_ch)) [
    | inl here ↦ rw (other, here) refl
    | inr neither ↦ rw (other, neither) (token_or_invalid-span lexer base_tok op_ch)
  ]
]

builtin_token-span : (lexer : Lexer) (cs : List ℕ) → (builtin_token lexer cs).span ≡ lexer.start
builtin_token-span lexer [] = refl
builtin_token-span lexer (c ∷ cs) = refl

case-span : (lexer : Lexer) (c : ℕ) (k : Case) → (lexer_case lexer c k).0.span ≡ lexer.start
unfolding lexer_case lexer_builtin lexer_dot
case-span lexer c (single type) = refl
case-span lexer c (with_eq base_tok eq_tok) = eq-span lexer base_tok eq_tok
case-span lexer c (with_op base_tok eq_tok op_ch op_tok) =
    op-span lexer base_tok eq_tok op_ch op_tok
case-span lexer c builtin_name =
    builtin_token-span lexer (eat_while is_ident_char lexer.cursor.rest lexer.cursor.position).0
case-span lexer c dots = elim (Bool-cases (peek lexer.cursor.rest == b'.')) [
  | inl here ↦ rw here refl
  | inr other ↦ rw other refl
]
case-span lexer c unexpected = refl

pub lexer_token-span :
    (strtof : List ℕ → ℕ) (skipped : Lexer)
    → (lexer_token strtof skipped).0.span ≡ span_of skipped.cursor.position
unfolding lexer_token lexer_identifier lexer_string
lexer_token-span strtof skipped =
    let lexer : Lexer = record skipped { start = span_of skipped.cursor.position } in
    let c = peek skipped.cursor.rest in
    elim (Bool-cases (is_digit c || c == b'.' && is_digit (peek_next skipped.cursor.rest))) [
      | inl number ↦ rw number (number-span strtof lexer)
      | inr no_number ↦ elim (Bool-cases (is_alpha c || c == b'_')) [
        | inl word ↦ rw (no_number, word) refl
        | inr no_word ↦ elim (Bool-cases (c == b'"')) [
          | inl text ↦
              rw (no_number, no_word, text)
                (string_token-span lexer
                  (string_body (eat lexer.cursor).rest (eat lexer.cursor).position))
          | inr no_text ↦ elim (Bool-cases (c == 0)) [
            | inl end_of_text ↦ rw (no_number, no_word, no_text, end_of_text) refl
            | inr some_byte ↦
                rw (no_number, no_word, no_text, some_byte)
                  (case-span (at_cursor lexer (eat lexer.cursor)) c (case_of c))
          ]
        ]
      ]
    ]
