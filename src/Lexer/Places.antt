-- ===== src/Lexer/Places.antt =====
-- Lines and columns: what the lexer counts byte by byte is what the text before a place shows.
use gab.Prelude.{
  ℕ, suc, ◌+◌, ◌≡◌, refl, inl, inr, Bool, true, false, List, [], ◌∷◌, arith, Bool-cases, ◌∙◌, ap,
  ap₂, if◌then◌else◌, ◌==◌, ◌||◌, length,
}
use gab.Mir.{Span}
use gab.Lexer.Cursor.{Position, advance, span_of}
use gab.Lexer.Moves.{advance_all}

unfoldable pub newlines : List ℕ → ℕ
newlines [] = 0
newlines (c ∷ cs) = if c == b'\n' then suc (newlines cs) else newlines cs

unfoldable pub has_newline : List ℕ → Bool
has_newline [] = false
has_newline (c ∷ cs) = c == b'\n' || has_newline cs

-- What stands after the last newline: the whole text where there is none.
unfoldable pub last_line : List ℕ → List ℕ
unfolding has_newline
last_line [] = []
last_line (c ∷ cs) = if has_newline cs then last_line cs else if c == b'\n' then cs else c ∷ cs

-- The place of the byte after a text: its line is one more than the newlines of the text, its column
-- one more than the bytes since the last of them.
unfoldable pub place_after : List ℕ → Span
unfolding newlines last_line
place_after cs = record { line = suc (newlines cs); column = suc (length (last_line cs)) }

unfoldable place : ℕ → ℕ → Span
place l k = record { line = l; column = k }

advance-pos : (p : Position) (c : ℕ) → (advance p c).pos ≡ p.pos + 1
unfolding advance
advance-pos p c = elim (Bool-cases (c == b'\n')) [
  | inl newline ↦ rw newline refl
  | inr other ↦ rw other refl
]

advance-newline :
    (p : Position) (c : ℕ)
    → (c == b'\n') ≡ true
    → advance p c ≡ record { pos = p.pos + 1; line = p.line + 1; column = 1 }
unfolding advance
advance-newline p c h = rw h refl

advance-other :
    (p : Position) (c : ℕ)
    → (c == b'\n') ≡ false
    → advance p c ≡ record { pos = p.pos + 1; line = p.line; column = p.column + 1 }
unfolding advance
advance-other p c h = rw h refl

advance_all-pos : (p : Position) (cs : List ℕ) → (advance_all p cs).pos ≡ p.pos + length cs
advance_all-pos p [] = omega arith
advance_all-pos p (c ∷ cs) = omega (arith, advance_all-pos (advance p c) cs, advance-pos p c)

advance_all-line : (p : Position) (cs : List ℕ) → (advance_all p cs).line ≡ p.line + newlines cs
unfolding newlines
advance_all-line p [] = omega arith
advance_all-line p (c ∷ cs) = elim (Bool-cases (c == b'\n')) [
  | inl newline ↦
      let line = ap (λ (x : Position). x.line) (advance-newline p c newline) in
      rw newline (omega (arith, advance_all-line (advance p c) cs, line))
  | inr other ↦
      let line = ap (λ (x : Position). x.line) (advance-other p c other) in
      rw other (omega (arith, advance_all-line (advance p c) cs, line))
]

unfoldable column_after : ℕ → List ℕ → ℕ
unfolding has_newline last_line
column_after column cs = if has_newline cs then suc (length (last_line cs)) else column + length cs

column_after-newline :
    (column c : ℕ) (cs : List ℕ)
    → (c == b'\n') ≡ true
    → column_after 1 cs ≡ column_after column (c ∷ cs)
unfolding column_after has_newline last_line
column_after-newline column c cs newline = elim (Bool-cases (has_newline cs)) [
  | inl later ↦ rw (newline, later) refl
  | inr none_later ↦ rw (newline, none_later) (omega arith)
]

column_after-other :
    (column c : ℕ) (cs : List ℕ)
    → (c == b'\n') ≡ false
    → column_after (column + 1) cs ≡ column_after column (c ∷ cs)
unfolding column_after has_newline last_line
column_after-other column c cs other = elim (Bool-cases (has_newline cs)) [
  | inl later ↦ rw (other, later) refl
  | inr none_later ↦ rw (other, none_later) (omega arith)
]

advance_all-column :
    (p : Position) (cs : List ℕ) → (advance_all p cs).column ≡ column_after p.column cs
unfolding column_after has_newline
advance_all-column p [] = omega arith
advance_all-column p (c ∷ cs) = elim (Bool-cases (c == b'\n')) [
  | inl newline ↦
      advance_all-column (advance p c) cs
      ∙ ap (λ (x : Position). column_after x.column cs) (advance-newline p c newline)
      ∙ column_after-newline p.column c cs newline
  | inr other ↦
      advance_all-column (advance p c) cs
      ∙ ap (λ (x : Position). column_after x.column cs) (advance-other p c other)
      ∙ column_after-other p.column c cs other
]

column_after_one : (cs : List ℕ) → column_after 1 cs ≡ suc (length (last_line cs))
unfolding column_after has_newline last_line
column_after_one [] = refl
column_after_one (c ∷ cs) = elim (Bool-cases (has_newline cs)) [
  | inl later ↦ elim (Bool-cases (c == b'\n')) [
    | inl newline ↦ rw (newline, later) refl
    | inr other ↦ rw (other, later) refl
  ]
  | inr none_later ↦ elim (Bool-cases (c == b'\n')) [
    | inl newline ↦ rw (newline, none_later) refl
    | inr other ↦ rw (other, none_later) (omega arith)
  ]
]

-- From the start of a text on, the position of the lexer counts the bytes, and its span is the place
-- after them.
pub advance_all-place_after :
    (cs : List ℕ)
    → ((advance_all (record { pos = 0; line = 1; column = 1 }) cs).pos ≡ length cs)
      × (span_of (advance_all (record { pos = 0; line = 1; column = 1 }) cs) ≡ place_after cs)
unfolding place_after place
advance_all-place_after cs =
    let start : Position = record { pos = 0; line = 1; column = 1 } in
    let line : (advance_all start cs).line ≡ suc (newlines cs) =
      omega (arith, advance_all-line start cs) in
    let column = advance_all-column start cs ∙ column_after_one cs in
    (omega (arith, advance_all-pos start cs), ap₂ (λ (l k : ℕ). place l k) line column)
