-- ===== src/Lexer/Comments.antt =====
-- Spaces and comments in a text, and the loops of the lexer that eat them.
use gab.Prelude.{
  ℕ, ◌≤◌, ◌≡◌, ◌≢◌, ◌⊎◌, sym, subst, inl, inr, Bool, true, false, not, ◌&&◌, ◌||◌, Option, none,
  some, List, [], ◌∷◌, ◌++◌, arith, Bool-cases, ◌==◌,
}
use gab.Mir.{Span}
use gab.Lexer.Cursor.{
  Position, Lexer, LexError, unterminated_comment, eat_while, skip_block, is_space, advance,
}
use gab.Lexer.Moves.{AllPass, eat_while_lem}

-- A space, or one of the bytes from a tab to a carriage return.
abbrev pub IsBlank : ℕ → Type 0
IsBlank c = (c ≡ 32) ⊎ (9 ≤ c) × (c ≤ 13)

abbrev pub StartsWith : ℕ → List ℕ → Type 0
StartsWith c [] = ⊥
StartsWith c (d ∷ ds) = d ≡ c

-- The end of the text, a zero byte or a newline.
abbrev pub EndsLine : List ℕ → Type 0
EndsLine [] = Unit
EndsLine (c ∷ cs) = (c ≡ 10) ⊎ (c ≡ 0)

-- The rest of a line, and the text from its end on.
pub data Line : List ℕ → List ℕ → Type 0 where
  line_end : {cs : List ℕ} → EndsLine cs → Line cs cs
  line_more : {c : ℕ} {cs ds : List ℕ} → c ≢ 10 → c ≢ 0 → Line cs ds → Line (c ∷ cs) ds

-- The inside of a block comment, whether it is closed, and the text past it.
pub data Inside : List ℕ → Bool → List ℕ → Type 0 where
  closes : {c d : ℕ} {cs : List ℕ} → c ≡ b'*' → d ≡ b'/' → Inside (c ∷ d ∷ cs) true cs
  text_ends : Inside [] false []
  zero_ends : {c : ℕ} {cs : List ℕ} → c ≡ 0 → Inside (c ∷ cs) false (c ∷ cs)
  inside_more :
      {c : ℕ} {cs ds : List ℕ} {closed : Bool}
      → c ≢ 0
      → (c ≡ b'*' → StartsWith b'/' cs → ⊥)
      → Inside cs closed ds
      → Inside (c ∷ cs) closed ds

-- Neither a space nor a comment starts here.
abbrev pub NoTrivia : List ℕ → Type 0
NoTrivia [] = Unit
NoTrivia (c ∷ cs) = (IsBlank c → ⊥) × (c ≡ b'/' → StartsWith b'/' cs ⊎ StartsWith b'*' cs → ⊥)

-- Spaces and comments, whether all of the comments are closed, and the text past them.
pub data Trivia : List ℕ → Bool → List ℕ → Type 0 where
  no_more : {cs : List ℕ} → NoTrivia cs → Trivia cs true cs
  blank :
      {c : ℕ} {cs ds : List ℕ} {closed : Bool}
      → IsBlank c
      → Trivia cs closed ds
      → Trivia (c ∷ cs) closed ds
  line_comment :
      {c d : ℕ} {cs es ds : List ℕ} {closed : Bool}
      → c ≡ b'/'
      → d ≡ b'/'
      → Line cs es
      → Trivia es closed ds
      → Trivia (c ∷ d ∷ cs) closed ds
  block_comment :
      {c d : ℕ} {cs es ds : List ℕ} {closed : Bool}
      → c ≡ b'/'
      → d ≡ b'*'
      → Inside cs true es
      → Trivia es closed ds
      → Trivia (c ∷ d ∷ cs) closed ds
  open_comment :
      {c d : ℕ} {cs ds : List ℕ}
      → c ≡ b'/'
      → d ≡ b'*'
      → Inside cs false ds
      → Trivia (c ∷ d ∷ cs) false ds

-- One more error where a comment is not closed.
abbrev pub Reported : Bool → List LexError → List LexError → Type 0
Reported true before after = after ≡ before
Reported false before after =
    (span : Span) × (after ≡ before ++ record { message = unterminated_comment; span = span } ∷ [])

abbrev pub Skipped : Lexer → Option Lexer → Type 0
Skipped lexer none = ⊥
Skipped lexer (some after) =
    (closed : Bool) × Trivia lexer.cursor.rest closed after.cursor.rest
    × Reported closed lexer.errors after.errors

space-IsBlank : (c : ℕ) → is_space c ≡ true → IsBlank c
space-IsBlank c h = ground arith

pub blank_space : (c : ℕ) → is_space c ≡ false → IsBlank c → ⊥
blank_space c h b = ground arith

pub test_eq : (a b : ℕ) → (a == b) ≡ true → a ≡ b
test_eq a b h = ground arith

pub test_neq : (a b : ℕ) → (a == b) ≡ false → a ≢ b
test_neq a b h e = ground (arith, h, e)

no_end : (c d : ℕ) → (c == b'*' && d == b'/') ≡ false → c ≡ b'*' → d ≡ b'/' → ⊥
no_end c d h e f = ground (arith, h, e, f)

blanks :
    (eaten rest ds : List ℕ) (closed : Bool)
    → AllPass is_space eaten
    → Trivia rest closed ds
    → Trivia (eaten ++ rest) closed ds
blanks [] rest ds closed h t = t
blanks (c ∷ eaten) rest ds closed h t =
    blank (space-IsBlank c h.0) (blanks eaten rest ds closed h.1 t)

pub eaten_blanks :
    (cs : List ℕ) (p : Position) (ds : List ℕ) (closed : Bool)
    → Trivia (eat_while is_space cs p).1.rest closed ds
    → Trivia cs closed ds
eaten_blanks cs p ds closed t =
    let m = eat_while_lem is_space cs p in
    subst (λ (xs : List ℕ). Trivia xs closed ds) (sym m.text)
      (blanks (eat_while is_space cs p).0 (eat_while is_space cs p).1.rest ds closed m.passed t)

abbrev pub in_line : ℕ → Bool
in_line c = not (c == b'\n' || c == 0)

in_line_lem : (c : ℕ) → in_line c ≡ true → (c ≢ 10) × (c ≢ 0)
in_line_lem c h = ((λ e. ground (arith, h, e)), λ e. ground (arith, h, e))

past_line_lem : (c : ℕ) → in_line c ≡ false → (c ≡ 10) ⊎ (c ≡ 0)
past_line_lem c h = ground arith

pub eat_while-Line : (cs : List ℕ) (p : Position) → Line cs (eat_while in_line cs p).1.rest
unfolding eat_while
eat_while-Line [] p = line_end tt
eat_while-Line (c ∷ cs) p = elim (Bool-cases (in_line c)) [
  | inl pass ↦
      let (no_newline, no_zero) = in_line_lem c pass in
      rw pass (line_more no_newline no_zero (eat_while-Line cs (advance p c)))
  | inr stop ↦ rw stop (line_end (past_line_lem c stop))
]

pub skip_block-Inside :
    (cs : List ℕ) (p : Position) → Inside cs (skip_block cs p).0 (skip_block cs p).1.rest
unfolding skip_block
skip_block-Inside [] p = text_ends
skip_block-Inside (c ∷ []) p = elim (Bool-cases (c == 0)) [
  | inl end_of_text ↦ rw end_of_text (zero_ends (test_eq c 0 end_of_text))
  | inr some_byte ↦ rw some_byte (inside_more (test_neq c 0 some_byte) (λ e s. s) text_ends)
]
skip_block-Inside (c ∷ d ∷ cs) p = elim (Bool-cases (c == b'*' && d == b'/')) [
  | inl pass ↦ rw pass (closes (ground (arith, pass)) (ground (arith, pass)))
  | inr more ↦ elim (Bool-cases (c == 0)) [
    | inl end_of_text ↦ rw (more, end_of_text) (zero_ends (test_eq c 0 end_of_text))
    | inr some_byte ↦
        rw (more, some_byte)
          (inside_more (test_neq c 0 some_byte) (λ e s. no_end c d more e s)
            (skip_block-Inside (d ∷ cs) (advance p c)))
  ]
]
