-- ===== src/Lexer/Skipped.antt =====
-- What `lexer_skip_trivia` skips: spaces and comments, up to the first byte that starts neither.
use gab.Prelude.{
  ℕ, zero, suc, ◌<◌, ◌≡◌, refl, subst, inl, inr, Bool, true, false, not, Option, none, some, List,
  [], ◌∷◌, arith, Bool-cases, ◌==◌, length,
}
use gab.Lexer.Cursor.{
  Position, Cursor, Lexer, at_cursor, eat, eat_while, skip_block, peek, peek_next, is_space,
}
use gab.Lexer.Moves.{
  StopsAt, cursor_at, Moves-Eats, Eats-Moves, Moves-trans, eat-Moves, eat-Eats, eat_while-Moves,
  eat_while-Eats, eat_while_lem, skip_block-Moves,
}
use gab.Lexer.Total.{is_slash, slash_no_newline}
use gab.Lexer.Trivia.{skip_trivia}
use gab.Lexer.Comments.{
  Line, line_end, line_more, Inside, NoTrivia, Trivia, no_more, line_comment, block_comment,
  open_comment, Skipped, blank_space, test_eq, test_neq, eaten_blanks, in_line, eat_while-Line,
  skip_block-Inside,
}

-- The bytes at which a comment starts.
slash_byte : (c : ℕ) → not (c == b'/') ≡ false → c ≡ b'/'
slash_byte c h = ground arith

Line-tail : (c : ℕ) (cs ds : List ℕ) → c ≡ b'/' → Line (c ∷ cs) ds → Line cs ds
Line-tail c cs ds e (line_end (inl newline)) = absurd (omega (arith, e, newline))
Line-tail c cs ds e (line_end (inr at_zero)) = absurd (omega (arith, e, at_zero))
Line-tail c cs ds e (line_more no_newline no_zero rest) = rest

line_skipped :
    (cs : List ℕ) (p : Position) (ds : List ℕ) (closed : Bool)
    → not (peek cs == b'/') ≡ false
    → (peek_next cs == b'/') ≡ true
    → Trivia (eat_while in_line cs p).1.rest closed ds
    → Trivia cs closed ds
line_skipped [] p ds closed h k t = absurd (cc h)
line_skipped (c ∷ []) p ds closed h k t = absurd (cc k)
line_skipped (c ∷ d ∷ cs) p ds closed h k t =
    let first = slash_byte c h in
    let second = test_eq d b'/' k in
    let es = (eat_while in_line (c ∷ d ∷ cs) p).1.rest in
    let all : Line (c ∷ d ∷ cs) es = eat_while-Line (c ∷ d ∷ cs) p in
    line_comment first second (Line-tail d cs es second (Line-tail c (d ∷ cs) es first all)) t

-- The text past the two bytes that open a block comment.
abbrev opened : List ℕ → Position → Cursor
opened cs p = eat (eat (cursor_at cs p))

block_skipped :
    (cs : List ℕ) (p : Position) (ds : List ℕ) (closed : Bool)
    → not (peek cs == b'/') ≡ false
    → (peek_next cs == b'*') ≡ true
    → (skip_block (opened cs p).rest (opened cs p).position).0 ≡ true
    → Trivia (skip_block (opened cs p).rest (opened cs p).position).1.rest closed ds
    → Trivia cs closed ds
unfolding eat
block_skipped [] p ds closed h k e t = absurd (cc h)
block_skipped (c ∷ []) p ds closed h k e t = absurd (cc k)
block_skipped (c ∷ d ∷ cs) p ds closed h k e t =
    let after = opened (c ∷ d ∷ cs) p in
    let all = skip_block-Inside cs after.position in
    block_comment (slash_byte c h) (test_eq d b'*' k)
      (subst (λ (b : Bool). Inside cs b (skip_block cs after.position).1.rest) e all) t

open_skipped :
    (cs : List ℕ) (p : Position)
    → not (peek cs == b'/') ≡ false
    → (peek_next cs == b'*') ≡ true
    → (skip_block (opened cs p).rest (opened cs p).position).0 ≡ false
    → Trivia cs false (skip_block (opened cs p).rest (opened cs p).position).1.rest
unfolding eat
open_skipped [] p h k e = absurd (cc h)
open_skipped (c ∷ []) p h k e = absurd (cc k)
open_skipped (c ∷ d ∷ cs) p h k e =
    let after = opened (c ∷ d ∷ cs) p in
    let all = skip_block-Inside cs after.position in
    open_comment (slash_byte c h) (test_eq d b'*' k)
      (subst (λ (b : Bool). Inside cs b (skip_block cs after.position).1.rest) e all)

other-NoTrivia : (cs : List ℕ) → StopsAt is_space cs → not (peek cs == b'/') ≡ true → NoTrivia cs
other-NoTrivia [] stop h = tt
other-NoTrivia (c ∷ cs) stop h = (blank_space c stop, λ e s. no_slash c h e)
  where
    no_slash : (c : ℕ) → not (c == b'/') ≡ true → c ≡ b'/' → ⊥
    no_slash c h e = ground (arith, h, e)

slash-NoTrivia :
    (cs : List ℕ)
    → StopsAt is_space cs
    → (peek_next cs == b'/') ≡ false
    → (peek_next cs == b'*') ≡ false
    → NoTrivia cs
slash-NoTrivia [] stop h k = tt
slash-NoTrivia (c ∷ []) stop h k = (blank_space c stop, λ e s. elim s [ inl x ↦ x | inr x ↦ x ])
slash-NoTrivia (c ∷ d ∷ cs) stop h k = (
  blank_space c stop,
  λ e s. elim s [ inl x ↦ test_neq d b'/' h x | inr x ↦ test_neq d b'*' k x ],
)

-- A lexer that goes on from another cursor.
Skipped-before :
    (lexer : Lexer) (cursor : Cursor) (o : Option Lexer)
    → ((closed : Bool) (ds : List ℕ)
        → Trivia cursor.rest closed ds
        → Trivia lexer.cursor.rest closed ds)
    → Skipped (at_cursor lexer cursor) o
    → Skipped lexer o
Skipped-before lexer cursor none f h = h
Skipped-before lexer cursor (some after) f (closed, trivia, reported) =
    (closed, f closed after.cursor.rest trivia, reported)

skip_trivia-Skipped :
    (fuel : ℕ) (lexer : Lexer)
    → length lexer.cursor.rest < fuel
    → Skipped lexer (skip_trivia fuel lexer)
unfolding skip_trivia
skip_trivia-Skipped zero lexer h = absurd (omega (arith, h))
skip_trivia-Skipped (suc fuel) lexer h =
    let spaced = (eat_while is_space lexer.cursor.rest lexer.cursor.position).1 in
    let cs = spaced.rest in
    let p = spaced.position in
    let after_line = (eat_while in_line cs p).1 in
    let past = opened cs p in
    let after_block = (skip_block past.rest past.position).1 in
    let spaces = eat_while-Moves is_space lexer.cursor in
    let stop = (eat_while_lem is_space lexer.cursor.rest lexer.cursor.position).stopped in
    let before = eaten_blanks lexer.cursor.rest lexer.cursor.position in
    elim (Bool-cases (not (peek cs == b'/'))) [
      | inl other ↦ rw other ((true, before cs true (no_more (other-NoTrivia cs stop other)), refl))
      | inr slash ↦
          let zero_free = is_slash (peek cs) slash in
          elim (Bool-cases (peek_next cs == b'/')) [
            | inl line ↦
                let e =
                  Moves-Eats lexer.cursor spaced after_line spaces
                    (eat_while-Eats in_line spaced zero_free (slash_no_newline (peek cs) slash)) in
                rw (slash, line)
                  (Skipped-before lexer after_line (skip_trivia fuel (at_cursor lexer after_line))
                    (λ closed ds t. before ds closed (line_skipped cs p ds closed slash line t))
                    (skip_trivia-Skipped fuel (at_cursor lexer after_line)
                      (omega (arith, h, e.some_text))))
            | inr no_line ↦ elim (Bool-cases (peek_next cs == b'*')) [
              | inr no_block ↦
                  rw (slash, no_line, no_block)
                    ((
                      true,
                      before cs true (no_more (slash-NoTrivia cs stop no_line no_block)),
                      refl,
                    ))
              | inl block ↦
                  let e = Moves-Eats lexer.cursor spaced after_block spaces (
                    Eats-Moves spaced (eat spaced) after_block (eat-Eats spaced zero_free) (
                      Moves-trans (eat spaced) past after_block (eat-Moves (eat spaced))
                        (skip_block-Moves past.rest past.position))) in
                  elim (Bool-cases (skip_block past.rest past.position).0) [
                    | inl closed ↦
                        rw (slash, no_line, block, closed)
                          (Skipped-before lexer after_block
                            (skip_trivia fuel (at_cursor lexer after_block))
                            (λ all ds t.
                              before ds all (block_skipped cs p ds all slash block closed t))
                            (skip_trivia-Skipped fuel (at_cursor lexer after_block)
                              (omega (arith, h, e.some_text))))
                    | inr open_end ↦
                        rw (slash, no_line, block, open_end)
                          ((
                            false,
                            before after_block.rest false (open_skipped cs p slash block open_end),
                            (_, refl),
                          ))
                  ]
            ]
          ]
    ]

-- `lexer_skip_trivia` ends on every text, and what it skips is spaces, bytes 9 to 13, comments from `//`
-- to the end of the line, and comments from `/*` to the first `*/` after it, up to a place at which
-- none of these starts, with no new error; or else up to the end of the text or a zero byte in a block
-- comment that is not closed, with that error and no other.
pub skip_trivia_lem :
    (lexer : Lexer) → Skipped lexer (skip_trivia (suc (length lexer.cursor.rest)) lexer)
skip_trivia_lem lexer = skip_trivia-Skipped (suc (length lexer.cursor.rest)) lexer (omega arith)
