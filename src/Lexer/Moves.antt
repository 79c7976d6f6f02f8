-- ===== src/Lexer/Moves.antt =====
-- How the lexer's cursor moves: it eats a prefix of the text, and its position counts that prefix.
use gab.Prelude.{
  ℕ, ◌≤◌, ◌<◌, ◌≡◌, refl, inl, inr, Bool, true, false, ◌&&◌, List, [], ◌∷◌, ◌++◌, arith, Bool-cases,
  sym, ◌∙◌, ap, ◌==◌, length, length-append,
}
use gab.Lexer.Cursor.{Position, Cursor, advance, eat, eat_while, skip_block, peek}

-- The position after a text.
abbrev pub advance_all : Position → List ℕ → Position
advance_all p [] = p
advance_all p (c ∷ cs) = advance_all (advance p c) cs

pub advance_all-append :
    (p : Position) (cs ds : List ℕ) → advance_all p (cs ++ ds) ≡ advance_all (advance_all p cs) ds
advance_all-append p [] ds = refl
advance_all-append p (c ∷ cs) ds = advance_all-append (advance p c) cs ds

append_assoc : (as' bs cs : List ℕ) → (as' ++ bs) ++ cs ≡ as' ++ (bs ++ cs)
append_assoc [] bs cs = refl
append_assoc (a ∷ as') bs cs = ap (λ (xs : List ℕ). a ∷ xs) (append_assoc as' bs cs)

-- The second cursor is the first past some text.
pub record Moves (before after : Cursor) : Type 0 where
  pub eaten : List ℕ
  pub text : before.rest ≡ eaten ++ after.rest
  pub counted : after.position ≡ advance_all before.position eaten

-- It is past some text that is not empty.
pub record Eats (before after : Cursor) : Type 0 where
  pub moves : Moves before after
  pub some_text : length after.rest < length before.rest

pub Moves-refl : (c : Cursor) → Moves c c
Moves-refl c = record { eaten = []; text = refl; counted = refl }

pub Moves-trans : (a b c : Cursor) → Moves a b → Moves b c → Moves a c
Moves-trans a b c p q = record {
  eaten = p.eaten ++ q.eaten;
  text =
      p.text
      ∙ ap (λ (xs : List ℕ). p.eaten ++ xs) q.text
      ∙ sym (append_assoc p.eaten q.eaten c.rest);
  counted =
      q.counted
      ∙ ap (λ (x : Position). advance_all x q.eaten) p.counted
      ∙ sym (advance_all-append a.position p.eaten q.eaten);
}

pub Moves-length : (a b : Cursor) → Moves a b → length b.rest ≤ length a.rest
Moves-length a b p =
    omega (arith, ap (λ (xs : List ℕ). length xs) p.text, length-append p.eaten b.rest)

pub Eats-Moves : (a b c : Cursor) → Eats a b → Moves b c → Eats a c
Eats-Moves a b c p q = record {
  moves = Moves-trans a b c p.moves q;
  some_text = omega (arith, p.some_text, Moves-length b c q);
}

pub Moves-Eats : (a b c : Cursor) → Moves a b → Eats b c → Eats a c
Moves-Eats a b c p q = record {
  moves = Moves-trans a b c p q.moves;
  some_text = omega (arith, q.some_text, Moves-length a b p);
}

abbrev pub cursor_at : List ℕ → Position → Cursor
cursor_at rest p = record { rest = rest; position = p }

pub one-Eats :
    (c : ℕ) (cs : List ℕ) (p : Position) → Eats (cursor_at (c ∷ cs) p) (cursor_at cs (advance p c))
one-Eats c cs p = record {
  moves = record { eaten = c ∷ []; text = refl; counted = refl };
  some_text = omega arith;
}

pub eat-Moves : (c : Cursor) → Moves c (eat c)
unfolding eat
eat-Moves c = from_rest c.rest c.position
  where
    from_rest : (cs : List ℕ) (p : Position) → Moves (cursor_at cs p) (eat (cursor_at cs p))
    from_rest [] p = Moves-refl (cursor_at [] p)
    from_rest (c ∷ cs) p = (one-Eats c cs p).moves

-- What `eat_while` eats passes the test, and it stops at the end or at a byte that does not.
abbrev pub AllPass : (ℕ → Bool) → List ℕ → Type 0
AllPass test [] = Unit
AllPass test (c ∷ cs) = (test c ≡ true) × AllPass test cs

abbrev pub StopsAt : (ℕ → Bool) → List ℕ → Type 0
StopsAt test [] = Unit
StopsAt test (c ∷ cs) = test c ≡ false

-- `eat_while` eats the longest prefix of bytes that pass the test.
pub record Munch (test : ℕ → Bool) (cs : List ℕ) (p : Position) : Type 0 where
  pub text : cs ≡ (eat_while test cs p).0 ++ (eat_while test cs p).1.rest
  pub counted : (eat_while test cs p).1.position ≡ advance_all p (eat_while test cs p).0
  pub passed : AllPass test (eat_while test cs p).0
  pub stopped : StopsAt test (eat_while test cs p).1.rest

-- The loops of the lexer that eat while a test holds eat the longest prefix of bytes that pass it: what
-- they eat and what is left make up the text, every eaten byte passes, the first byte left, if there is
-- one, does not, and the position is the one that `advance` gives, byte by byte, for what was eaten.
pub eat_while_lem : (test : ℕ → Bool) (cs : List ℕ) (p : Position) → Munch test cs p
unfolding eat_while
eat_while_lem test [] p = record { text = refl; counted = refl; passed = tt; stopped = tt }
eat_while_lem test (c ∷ cs) p = elim (Bool-cases (test c)) [
  | inl pass ↦
      let m = eat_while_lem test cs (advance p c) in
      record {
        text = rw pass (ap (λ (xs : List ℕ). c ∷ xs) m.text);
        counted = rw pass m.counted;
        passed = rw pass ((pass, m.passed));
        stopped = rw pass m.stopped;
      }
  | inr no_more ↦ record {
    text = rw no_more refl;
    counted = rw no_more refl;
    passed = rw no_more tt;
    stopped = rw no_more no_more;
  }
]

pub eat_while-Moves : (test : ℕ → Bool) (c : Cursor) → Moves c (eat_while test c.rest c.position).1
eat_while-Moves test c =
    let m = eat_while_lem test c.rest c.position in
    record { eaten = (eat_while test c.rest c.position).0; text = m.text; counted = m.counted }

pub skip_block-Moves : (cs : List ℕ) (p : Position) → Moves (cursor_at cs p) (skip_block cs p).1
unfolding skip_block
skip_block-Moves [] p = Moves-refl (cursor_at [] p)
skip_block-Moves (c ∷ []) p = elim (Bool-cases (c == 0)) [
  | inl end_of_text ↦ rw end_of_text (Moves-refl (cursor_at (c ∷ []) p))
  | inr some_byte ↦ rw some_byte (one-Eats c [] p).moves
]
skip_block-Moves (c ∷ d ∷ cs) p = elim (Bool-cases (c == b'*' && d == b'/')) [
  | inl pass ↦ rw pass (record { eaten = c ∷ d ∷ []; text = refl; counted = refl })
  | inr more ↦ elim (Bool-cases (c == 0)) [
    | inl end_of_text ↦ rw (more, end_of_text) (Moves-refl (cursor_at (c ∷ d ∷ cs) p))
    | inr some_byte ↦
        rw (more, some_byte)
          (Moves-trans (cursor_at (c ∷ d ∷ cs) p) (cursor_at (d ∷ cs) (advance p c))
            (skip_block (d ∷ cs) (advance p c)).1 (one-Eats c (d ∷ cs) p).moves
            (skip_block-Moves (d ∷ cs) (advance p c)))
  ]
]

-- A byte that is not zero stands at the cursor.
pub eat-Eats : (c : Cursor) → (peek c.rest == 0) ≡ false → Eats c (eat c)
unfolding eat
eat-Eats c h = from_rest c.rest c.position h
  where
    from_rest :
        (cs : List ℕ) (p : Position)
        → (peek cs == 0) ≡ false
        → Eats (cursor_at cs p) (eat (cursor_at cs p))
    from_rest [] p h = absurd (cc h)
    from_rest (c ∷ cs) p h = one-Eats c cs p

pub eat_while-Eats :
    (test : ℕ → Bool) (c : Cursor)
    → (peek c.rest == 0) ≡ false
    → test (peek c.rest) ≡ true
    → Eats c (eat_while test c.rest c.position).1
unfolding eat_while
eat_while-Eats test c h t = from_rest c.rest c.position h t
  where
    from_rest :
        (cs : List ℕ) (p : Position)
        → (peek cs == 0) ≡ false
        → test (peek cs) ≡ true
        → Eats (cursor_at cs p) (eat_while test cs p).1
    from_rest [] p h t = absurd (cc h)
    from_rest (c ∷ cs) p h t = rw t (
        Eats-Moves (cursor_at (c ∷ cs) p) (cursor_at cs (advance p c))
          (eat_while test cs (advance p c)).1 (one-Eats c cs p)
          (eat_while-Moves test (cursor_at cs (advance p c))))
