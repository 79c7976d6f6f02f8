-- ===== src/Lexer/Texts.antt =====
-- `lexer_string` moves the cursor past the text it reads.
use gab.Prelude.{
  ℕ, ◌≡◌, refl, inl, inr, false, ◌||◌, Option, none, some, List, [], ◌∷◌, Bool-cases, sym, subst,
  ◌==◌,
}
use gab.Mir.{Span}
use gab.Lexer.Cursor.{Position, Cursor, Lexer, advance, eat, peek, span_of}
use gab.Lexer.Moves.{
  Moves, Eats, cursor_at, one-Eats, Moves-refl, Moves-trans, Eats-Moves, eat-Eats,
}
use gab.Lexer.Literal.{
  StringEnd, closed, unterminated, bad_escape, prepend, escaped, escape_value, string_body,
  string_token, lexer_string,
}

prepend-cursor : (c : ℕ) (r : StringEnd × Cursor) → (prepend c r).1 ≡ r.1
prepend-cursor c (closed text, cursor) = refl
prepend-cursor c (unterminated, cursor) = refl
prepend-cursor c (bad_escape span e, cursor) = refl

escaped-Moves :
    (o : Option ℕ) (span : Span) (e : ℕ) (before here : Cursor) (after : StringEnd × Cursor)
    → Moves before here
    → Moves before after.1
    → Moves before (escaped o span e here after).1
escaped-Moves none span e before here after m n = m
escaped-Moves (some v) span e before here after m n =
    subst (Moves before) (sym (prepend-cursor v after)) n

string_body-Moves : (cs : List ℕ) (p : Position) → Moves (cursor_at cs p) (string_body cs p).1
unfolding string_body
string_body-Moves [] p = Moves-refl (cursor_at [] p)
string_body-Moves (c ∷ []) p = elim (Bool-cases (c == b'"')) [
  | inl quote ↦ rw quote (one-Eats c [] p).moves
  | inr no_quote ↦ elim (Bool-cases (c == 0 || c == b'\n')) [
    | inl line_end ↦ rw (no_quote, line_end) (Moves-refl (cursor_at (c ∷ []) p))
    | inr text ↦ elim (Bool-cases (c == b'\\')) [
      | inl escape ↦ rw (no_quote, text, escape) (one-Eats c [] p).moves
      | inr plain ↦ rw (no_quote, text, plain) (one-Eats c [] p).moves
    ]
  ]
]
string_body-Moves (c ∷ d ∷ cs) p =
    let here = cursor_at (c ∷ d ∷ cs) p in
    let past = cursor_at (d ∷ cs) (advance p c) in
    let past_both = cursor_at cs (advance (advance p c) d) in
    let one = (one-Eats c (d ∷ cs) p).moves in
    elim (Bool-cases (c == b'"')) [
      | inl quote ↦ rw quote one
      | inr no_quote ↦ elim (Bool-cases (c == 0 || c == b'\n')) [
        | inl line_end ↦ rw (no_quote, line_end) (Moves-refl here)
        | inr text ↦ elim (Bool-cases (c == b'\\')) [
          | inl escape ↦
              let after = string_body cs (advance (advance p c) d) in
              rw (no_quote, text, escape)
                (escaped-Moves (escape_value d) (span_of p) d here past after one (
                  Moves-trans here past_both after.1
                    (Moves-trans here past past_both one (one-Eats d cs (advance p c)).moves)
                    (string_body-Moves cs (advance (advance p c) d))))
          | inr plain ↦
              let after = string_body (d ∷ cs) (advance p c) in
              rw (no_quote, text, plain)
                (subst (Moves here) (sym (prepend-cursor c after))
                  (Moves-trans here past after.1 one (string_body-Moves (d ∷ cs) (advance p c))))
        ]
      ]
    ]

string_token-cursor :
    (lexer : Lexer) (r : StringEnd × Cursor) → r.1 ≡ (string_token lexer r).1.cursor
string_token-cursor lexer (closed text, cursor) = refl
string_token-cursor lexer (unterminated, cursor) = refl
string_token-cursor lexer (bad_escape span e, cursor) = refl

pub string-Eats :
    (lexer : Lexer)
    → (peek lexer.cursor.rest == 0) ≡ false
    → Eats lexer.cursor (lexer_string lexer).1.cursor
unfolding lexer_string
string-Eats lexer h =
    let opened = eat lexer.cursor in
    subst (Eats lexer.cursor) (string_token-cursor lexer (string_body opened.rest opened.position))
      (Eats-Moves lexer.cursor opened (string_body opened.rest opened.position).1
        (eat-Eats lexer.cursor h) (string_body-Moves opened.rest opened.position))
