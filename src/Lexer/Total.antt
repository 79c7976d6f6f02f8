-- ===== src/Lexer/Total.antt =====
-- The lexer ends: each function of it gives a result whose cursor has moved, and past a byte unless
-- the token is the end of input.
use gab.Prelude.{
  ℕ, zero, suc, ◌<◌, ◌≡◌, inl, inr, true, false, not, ◌||◌, Option, none, some, arith, Bool-cases,
  ◌==◌, length,
}
use gab.Lexer.Cursor.{Lexer, at_cursor, eat, eat_while, skip_block, peek, peek_next, is_space}
use gab.Lexer.Moves.{
  Moves, Moves-trans, Eats-Moves, Moves-Eats, eat-Moves, eat-Eats, eat_while-Moves, eat_while-Eats,
  skip_block-Moves,
}
use gab.Lexer.Trivia.{skip_trivia}

pub is_slash : (c : ℕ) → not (c == b'/') ≡ false → (c == 0) ≡ false
is_slash c h = ground arith

pub slash_no_newline : (c : ℕ) → not (c == b'/') ≡ false → not (c == b'\n' || c == 0) ≡ true
slash_no_newline c h = ground arith

-- A result whose cursor has moved.
unfoldable pub Skips : Lexer → Option Lexer → Type 0
Skips lexer none = ⊥
Skips lexer (some after) = Moves lexer.cursor after.cursor

Skips-Moves : (a b : Lexer) (o : Option Lexer) → Moves a.cursor b.cursor → Skips b o → Skips a o
unfolding Skips
Skips-Moves a b none m h = h
Skips-Moves a b (some c) m h = Moves-trans a.cursor b.cursor c.cursor m h

pub skip_trivia-Skips :
    (fuel : ℕ) (lexer : Lexer)
    → length lexer.cursor.rest < fuel
    → Skips lexer (skip_trivia fuel lexer)
unfolding skip_trivia Skips
skip_trivia-Skips zero lexer h = absurd (omega (arith, h))
skip_trivia-Skips (suc fuel) lexer h =
    let spaced = (eat_while is_space lexer.cursor.rest lexer.cursor.position).1 in
    let after_line = (eat_while (λ c. not (c == b'\n' || c == 0)) spaced.rest spaced.position).1 in
    let opened = eat (eat spaced) in
    let after_block = (skip_block opened.rest opened.position).1 in
    let spaces = eat_while-Moves is_space lexer.cursor in
    elim (Bool-cases (not (peek spaced.rest == b'/'))) [
      | inl other ↦ rw other spaces
      | inr slash ↦
          let zero_free = is_slash (peek spaced.rest) slash in
          elim (Bool-cases (peek_next spaced.rest == b'/')) [
            | inl line ↦
                let e = Moves-Eats lexer.cursor spaced after_line spaces (
                  eat_while-Eats (λ c. not (c == b'\n' || c == 0)) spaced zero_free
                    (slash_no_newline (peek spaced.rest) slash)) in
                rw (slash, line)
                  (Skips-Moves lexer (at_cursor lexer after_line)
                    (skip_trivia fuel (at_cursor lexer after_line)) e.moves
                    (skip_trivia-Skips fuel (at_cursor lexer after_line)
                      (omega (arith, h, e.some_text))))
            | inr no_line ↦ elim (Bool-cases (peek_next spaced.rest == b'*')) [
              | inr no_block ↦ rw (slash, no_line, no_block) spaces
              | inl block ↦
                  let e = Moves-Eats lexer.cursor spaced after_block spaces (
                    Eats-Moves spaced (eat spaced) after_block (eat-Eats spaced zero_free) (
                      Moves-trans (eat spaced) opened after_block (eat-Moves (eat spaced))
                        (skip_block-Moves opened.rest opened.position))) in
                  elim (Bool-cases (skip_block opened.rest opened.position).0) [
                    | inl closed ↦
                        rw (slash, no_line, block, closed)
                          (Skips-Moves lexer (at_cursor lexer after_block)
                            (skip_trivia fuel (at_cursor lexer after_block)) e.moves
                            (skip_trivia-Skips fuel (at_cursor lexer after_block)
                              (omega (arith, h, e.some_text))))
                    | inr open_end ↦ rw (slash, no_line, block, open_end) e.moves
                  ]
            ]
          ]
    ]
