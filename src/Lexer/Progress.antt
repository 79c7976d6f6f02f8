-- ===== src/Lexer/Progress.antt =====
-- Every token but the end of input eats some text.
use gab.Prelude.{
  ℕ, ◌≡◌, refl, ◌⊎◌, inl, inr, Bool, true, false, not, ◌&&◌, ◌||◌, Option, none, some, List, [],
  ◌∷◌, arith, Bool-cases, sym, ◌∙◌, ap, subst, ◌==◌,
}
use gab.Lexer.Tokens.{TokenType}
use gab.Lexer.Cursor.{
  Position, Cursor, Lexer, Token, at_cursor, eat, eat_while, peek, peek_next, is_digit, is_alpha,
  is_ident_char, span_of,
}
use gab.Lexer.Moves.{
  Moves, Eats, cursor_at, Moves-refl, Moves-trans, Eats-Moves, eat-Moves, eat-Eats, eat_while-Moves,
  eat_while-Eats,
}
use gab.Lexer.Literal.{int_token, strtoll, lexer_number}
use gab.Lexer.Texts.{string-Eats}
use gab.Lexer.Word.{lexer_identifier}
use gab.Lexer.Next.{
  Case, single, with_eq, with_op, builtin_name, dots, unexpected, token_or_invalid, lexer_handle_eq,
  lexer_handle_op_eq, lexer_builtin, lexer_dot, lexer_case, case_of, lexer_token,
}

int_token-cursor : (lexer : Lexer) (o : Option ℕ) → lexer.cursor ≡ (int_token lexer o).1.cursor
int_token-cursor lexer none = refl
int_token-cursor lexer (some value) = refl

digit_not_zero : (c : ℕ) → is_digit c ≡ true → (c == 0) ≡ false
digit_not_zero c h = ground arith

stays :
    (test : ℕ → Bool) (c : Cursor)
    → test (peek c.rest) ≡ false
    → (eat_while test c.rest c.position).1 ≡ c
unfolding eat_while
stays test c h = from_rest c.rest c.position h
  where
    from_rest :
        (cs : List ℕ) (p : Position)
        → test (peek cs) ≡ false
        → (eat_while test cs p).1 ≡ cursor_at cs p
    from_rest [] p h = refl
    from_rest (c ∷ cs) p h = rw h refl

is_dot :
    (c d : ℕ)
    → (c == b'.' && is_digit d) ≡ true
    → ((c == b'.' && not (d == b'.')) ≡ true) × ((c == 0) ≡ false)
is_dot c d h = ground arith

fraction-Eats :
    (c : Cursor)
    → (peek c.rest == 0) ≡ false
    → Eats c (eat_while is_digit (eat c).rest (eat c).position).1
fraction-Eats c h =
    Eats-Moves c (eat c) (eat_while is_digit (eat c).rest (eat c).position).1 (eat-Eats c h)
      (eat_while-Moves is_digit (eat c))

dotted_number-Eats :
    (strtof : List ℕ → ℕ) (lexer : Lexer)
    → (eat_while is_digit lexer.cursor.rest lexer.cursor.position).1 ≡ lexer.cursor
    → (is_digit (peek lexer.cursor.rest)
        || peek lexer.cursor.rest == b'.' && is_digit (peek_next lexer.cursor.rest))
      ≡ true
    → is_digit (peek lexer.cursor.rest) ≡ false
    → Eats lexer.cursor (lexer_number strtof lexer).1.cursor
unfolding lexer_number
dotted_number-Eats strtof lexer still h no_digit =
    let (float, some_byte) = is_dot (peek lexer.cursor.rest) (peek_next lexer.cursor.rest) (
      sym (
        ap (λ b. b || peek lexer.cursor.rest == b'.' && is_digit (peek_next lexer.cursor.rest))
          no_digit)
      ∙ h) in
    rw (still, float) (fraction-Eats lexer.cursor some_byte)

number-Eats :
    (strtof : List ℕ → ℕ) (lexer : Lexer)
    → (is_digit (peek lexer.cursor.rest)
        || peek lexer.cursor.rest == b'.' && is_digit (peek_next lexer.cursor.rest))
      ≡ true
    → Eats lexer.cursor (lexer_number strtof lexer).1.cursor
unfolding lexer_number
number-Eats strtof lexer h =
    let c = (eat_while is_digit lexer.cursor.rest lexer.cursor.position).1 in
    elim (Bool-cases (is_digit (peek lexer.cursor.rest))) [
      | inl digit ↦
          let e =
            eat_while-Eats is_digit lexer.cursor (digit_not_zero (peek lexer.cursor.rest) digit)
              digit in
          elim (Bool-cases (peek c.rest == b'.' && not (peek_next c.rest == b'.'))) [
            | inl float ↦ rw float (
                Eats-Moves lexer.cursor c (eat_while is_digit (eat c).rest (eat c).position).1 e (
                  Moves-trans c (eat c) (eat_while is_digit (eat c).rest (eat c).position).1
                    (eat-Moves c) (eat_while-Moves is_digit (eat c))))
            | inr int ↦ rw int (
                subst (Eats lexer.cursor)
                  (int_token-cursor (at_cursor lexer c)
                    (strtoll (eat_while is_digit lexer.cursor.rest lexer.cursor.position).0))
                  e)
          ]
      | inr no_digit ↦
          dotted_number-Eats strtof lexer (stays is_digit lexer.cursor no_digit) h no_digit
    ]

starts_word :
    (c : ℕ) → (is_alpha c || c == b'_') ≡ true → (is_ident_char c ≡ true) × ((c == 0) ≡ false)
unfolding is_ident_char
starts_word c h = ground arith

identifier-Eats :
    (lexer : Lexer)
    → (is_alpha (peek lexer.cursor.rest) || peek lexer.cursor.rest == b'_') ≡ true
    → Eats lexer.cursor (lexer_identifier lexer).1.cursor
unfolding lexer_identifier
identifier-Eats lexer h =
    let (word, some_byte) = starts_word (peek lexer.cursor.rest) h in
    eat_while-Eats is_ident_char lexer.cursor some_byte word

token_or_invalid-cursor :
    (lexer : Lexer) (o : Option TokenType) (c : ℕ)
    → lexer.cursor ≡ (token_or_invalid lexer o c).1.cursor
token_or_invalid-cursor lexer none c = refl
token_or_invalid-cursor lexer (some type) c = refl

eq-Moves :
    (lexer : Lexer) (base_tok eq_tok : TokenType)
    → Moves lexer.cursor (lexer_handle_eq lexer base_tok eq_tok).1.cursor
unfolding lexer_handle_eq
eq-Moves lexer base_tok eq_tok = elim (Bool-cases (peek lexer.cursor.rest == b'=')) [
  | inl here ↦ rw here (eat-Moves lexer.cursor)
  | inr other ↦ rw other (Moves-refl lexer.cursor)
]

op-Moves :
    (lexer : Lexer) (base_tok eq_tok : Option TokenType) (op_ch : ℕ) (op_tok : TokenType)
    → Moves lexer.cursor (lexer_handle_op_eq lexer base_tok eq_tok op_ch op_tok).1.cursor
unfolding lexer_handle_op_eq
op-Moves lexer base_tok eq_tok op_ch op_tok = elim (Bool-cases (peek lexer.cursor.rest == b'=')) [
  | inl here ↦ rw here (
      subst (Moves lexer.cursor)
        (token_or_invalid-cursor (at_cursor lexer (eat lexer.cursor)) eq_tok op_ch)
        (eat-Moves lexer.cursor))
  | inr other ↦ elim (Bool-cases (peek lexer.cursor.rest == op_ch)) [
    | inl here ↦ rw (other, here) (eat-Moves lexer.cursor)
    | inr neither ↦
        rw (other, neither)
          (subst (Moves lexer.cursor) (token_or_invalid-cursor lexer base_tok op_ch)
            (Moves-refl lexer.cursor))
  ]
]

case-Moves : (lexer : Lexer) (c : ℕ) (k : Case) → Moves lexer.cursor (lexer_case lexer c k).1.cursor
unfolding lexer_case lexer_builtin lexer_dot
case-Moves lexer c (single type) = Moves-refl lexer.cursor
case-Moves lexer c (with_eq base_tok eq_tok) = eq-Moves lexer base_tok eq_tok
case-Moves lexer c (with_op base_tok eq_tok op_ch op_tok) =
    op-Moves lexer base_tok eq_tok op_ch op_tok
case-Moves lexer c builtin_name = eat_while-Moves is_ident_char lexer.cursor
case-Moves lexer c dots = elim (Bool-cases (peek lexer.cursor.rest == b'.')) [
  | inl here ↦ rw here (eat-Moves lexer.cursor)
  | inr other ↦ rw other (Moves-refl lexer.cursor)
]
case-Moves lexer c unexpected = Moves-refl lexer.cursor

-- A token that is the end of input, where the cursor stays at the end of the text, or one that ate
-- some text.
abbrev pub Outcome : Cursor → Token → Cursor → Type 0
Outcome before token after =
    (token.type ≡ TokenType.eof) × (peek before.rest ≡ 0) × (after ≡ before) ⊎ Eats before after

test_zero : (c : ℕ) → (c == 0) ≡ true → c ≡ 0
test_zero c h = ground arith

quote_not_zero : (c : ℕ) → (c == b'"') ≡ true → (c == 0) ≡ false
quote_not_zero c h = ground arith

pub lexer_token-Outcome :
    (strtof : List ℕ → ℕ) (skipped : Lexer)
    → Outcome skipped.cursor (lexer_token strtof skipped).0 (lexer_token strtof skipped).1.cursor
unfolding lexer_token
lexer_token-Outcome strtof skipped =
    let lexer : Lexer = record skipped { start = span_of skipped.cursor.position } in
    let c = peek skipped.cursor.rest in
    elim (Bool-cases (is_digit c || c == b'.' && is_digit (peek_next skipped.cursor.rest))) [
      | inl number ↦ rw number (inr (number-Eats strtof lexer number))
      | inr no_number ↦ elim (Bool-cases (is_alpha c || c == b'_')) [
        | inl word ↦ rw (no_number, word) (inr (identifier-Eats lexer word))
        | inr no_word ↦ elim (Bool-cases (c == b'"')) [
          | inl text ↦
              rw (no_number, no_word, text) (inr (string-Eats lexer (quote_not_zero c text)))
          | inr no_text ↦ elim (Bool-cases (c == 0)) [
            | inl end_of_text ↦
                rw (no_number, no_word, no_text, end_of_text)
                  (inl (refl, test_zero c end_of_text, refl))
            | inr some_byte ↦
                rw (no_number, no_word, no_text, some_byte)
                  (inr (
                    Eats-Moves lexer.cursor (eat lexer.cursor)
                      (lexer_case (at_cursor lexer (eat lexer.cursor)) c (case_of c)).1.cursor
                      (eat-Eats lexer.cursor some_byte)
                      (case-Moves (at_cursor lexer (eat lexer.cursor)) c (case_of c))))
          ]
        ]
      ]
    ]
