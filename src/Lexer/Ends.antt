-- ===== src/Lexer/Ends.antt =====
-- The tokens of a text: `lexer_next` ends, the last token is the end of input, and the span of each
-- is the place of its first byte.
use gab.Prelude.{
  ℕ, zero, suc, ◌<◌, ◌≡◌, refl, inl, inr, true, false, Option, none, some, List, [], ◌∷◌, ◌++◌,
  arith, Bool-cases, ◌∙◌, ap, length,
}
use gab.Lexer.Tokens.{TokenType}
use gab.Lexer.Cursor.{Cursor, Lexer, Token, lexer_create, span_of}
use gab.Lexer.Moves.{Moves, Eats, Moves-refl, Moves-trans, Moves-length}
use gab.Lexer.Total.{Skips, skip_trivia-Skips}
use gab.Lexer.Places.{place_after, advance_all-place_after}
use gab.Lexer.Progress.{Outcome, lexer_token-Outcome}
use gab.Lexer.Spans.{lexer_token-span}
use gab.Lexer.Trivia.{skip_trivia}
use gab.Lexer.Next.{is_eof, then_others, then_token, lexer_next, with_others, tokens}

-- A token, and the lexer after it: the lexer moved to the place at which the token starts, and from
-- there it is the end of input or ate some text.
pub record Step (before : Cursor) (token : Token) (after : Cursor) : Type 0 where
  pub first : Cursor
  pub skipped : Moves before first
  pub outcome : Outcome first token after
  pub located : token.span ≡ span_of first.position

abbrev pub Steps : Lexer → Option (Token × Lexer) → Type 0
Steps before none = ⊥
Steps before (some (token, after)) = Step before.cursor token after.cursor

module _ (strtof : List ℕ → ℕ) where
  then_token-Steps :
      (lexer : Lexer) (o : Option Lexer) → Skips lexer o → Steps lexer (then_token strtof o)
  unfolding Skips
  then_token-Steps lexer none h = h
  then_token-Steps lexer (some skipped) h = record {
    first = skipped.cursor;
    skipped = h;
    outcome = lexer_token-Outcome strtof skipped;
    located = lexer_token-span strtof skipped;
  }

  -- `lexer_next` ends on every text: it gives a token whose span is a place that the lexer has moved to,
  -- and the token is the end of input, found at the end of the text or at a zero byte and
  -- without moving past it, or the lexer has moved past at least one byte.
  pub lexer_next-Steps : (lexer : Lexer) → Steps lexer (lexer_next strtof lexer)
  unfolding lexer_next
  lexer_next-Steps lexer =
      then_token-Steps lexer (skip_trivia (suc (length lexer.cursor.rest)) lexer)
        (skip_trivia-Skips (suc (length lexer.cursor.rest)) lexer (omega arith))

-- A token that starts in a text after some of it: its span is the place after that part.
pub record Located (source : List ℕ) (token : Token) : Type 0 where
  pub before : List ℕ
  pub here : List ℕ
  pub text : source ≡ before ++ here
  pub placed : token.span ≡ place_after before

-- Every token is located, and the last one, and no other, is the end of input.
abbrev pub Ending : List ℕ → List Token → Type 0
Ending source [] = ⊥
Ending source (token ∷ []) = Located source token × (token.type ≡ TokenType.eof)
Ending source (token ∷ next ∷ rest) =
    Located source token × (is_eof token.type ≡ false) × Ending source (next ∷ rest)

abbrev pub Lexed : List ℕ → Option (List Token × Lexer) → Type 0
Lexed source none = ⊥
Lexed source (some (ts, last)) = Ending source ts

unfoldable start : List ℕ → Cursor
start source = record { rest = source; position = record { pos = 0; line = 1; column = 1 } }

Step-Located :
    (source : List ℕ) (before after : Cursor) (token : Token)
    → Moves (start source) before
    → Step before token after
    → Located source token
unfolding start
Step-Located source before after token m s =
    let all = Moves-trans (start source) before s.first m s.skipped in
    let (pos, place) = advance_all-place_after all.eaten in
    record {
      before = all.eaten;
      here = s.first.rest;
      text = all.text;
      placed = s.located ∙ ap span_of all.counted ∙ place;
    }

is_eof_type : (type : TokenType) → is_eof type ≡ true → type ≡ TokenType.eof
is_eof_type TokenType.eof h = refl
is_eof_type _ h = absurd (cc h)

then_others-Lexed :
    (source : List ℕ) (token : Token) (o : Option (List Token × Lexer))
    → Located source token
    → is_eof token.type ≡ false
    → Lexed source o
    → Lexed source (then_others token o)
then_others-Lexed source token none l e h = h
then_others-Lexed source token (some ([], last)) l e h = absurd h
then_others-Lexed source token (some (next ∷ rest, last)) l e h = (l, e, h)

eof_only : (a b : Cursor) (token : Token) → Outcome a token b → is_eof token.type ≡ false → Eats a b
eof_only a b token (inl (e, z, s)) h = absurd (cc (e, h))
eof_only a b token (inr m) h = m

module _ (strtof : List ℕ → ℕ) where
  with_others-Lexed :
      (source : List ℕ) (fuel : ℕ) (lexer : Lexer) (o : Option (Token × Lexer))
      → Moves (start source) lexer.cursor
      → length lexer.cursor.rest < suc fuel
      → Steps lexer o
      → ((next : Lexer)
          → Moves (start source) next.cursor
          → length next.cursor.rest < fuel
          → Lexed source (tokens strtof fuel next))
      → Lexed source (with_others strtof (tokens strtof fuel) o)
  with_others-Lexed source fuel lexer none m h s rec = s
  with_others-Lexed source fuel lexer (some (token, after)) m h s rec =
      let located = Step-Located source lexer.cursor after.cursor token m s in
      elim (Bool-cases (is_eof token.type)) [
        | inl eof ↦ rw eof ((located, is_eof_type token.type eof))
        | inr more ↦
            let e = eof_only s.first after.cursor token s.outcome more in
            let all = Moves-trans (start source) lexer.cursor s.first m s.skipped in
            rw more (
              then_others-Lexed source token (tokens strtof fuel after) located more (
                rec after (Moves-trans (start source) s.first after.cursor all e.moves)
                  (omega (arith, h, e.some_text, Moves-length lexer.cursor s.first s.skipped))))
      ]

  tokens_from-Lexed :
      (source : List ℕ) (fuel : ℕ) (lexer : Lexer)
      → Moves (start source) lexer.cursor
      → length lexer.cursor.rest < fuel
      → Lexed source (tokens strtof fuel lexer)
  unfolding tokens
  tokens_from-Lexed source zero lexer m h = absurd (omega (arith, h))
  tokens_from-Lexed source (suc fuel) lexer m h =
      with_others-Lexed source fuel lexer (lexer_next strtof lexer) m h
        (lexer_next-Steps strtof lexer)
        (λ (next : Lexer) n k. tokens_from-Lexed source fuel next n k)

  -- Lexing ends on every text, with no more tokens than the text has bytes, and one for the end of
  -- input: the last token, and no other, is the end of input, and the span of each token is the line
  -- and column of a place in the text, counted by the newlines before it and the bytes since the last
  -- of them.
  pub tokens-Lexed :
      (source : List ℕ) → Lexed source (tokens strtof (suc (length source)) (lexer_create source))
  unfolding lexer_create start
  tokens-Lexed source =
      tokens_from-Lexed source (suc (length source)) (lexer_create source)
        (Moves-refl (start source)) (omega arith)
