-- ===== src/Arena/Tests.antt =====
-- An arena of 16 bytes that holds 5.
use gab.Prelude.{ℕ, ◌≢◌, arith, refl, ◌≡◌, inl, inr, true, [], ◌∷◌, false}
use gab.Arena.{Arena, arena_alloc, bump, arena_grow, reuse_block}
use gab.Arena.Grown.{allocs}
use gab.Arena.Rewind.{Rewound, arena_checkpoint, arena_rewind, arena_rewind_lem}
use gab.Arena.Given.{IsGiven}
use gab.Arena.Alloc.{arena_alloc_lem}

abbrev started : Arena
started = record {
  passed = [];
  current = record { memory = 0; capacity = 16; offset = 5; dedicated = false };
  rest = [];
  block_size = 16;
  fresh = 1;
}

abbrev grown : Arena
grown = record {
  passed = record { memory = 0; capacity = 16; offset = 5; dedicated = false } ∷ [];
  current = record { memory = 1; capacity = 16; offset = 9; dedicated = false };
  rest = [];
  block_size = 16;
  fresh = 2;
}

-- Nine bytes do not fit after the first eight.
grows : arena_alloc started 9 ≡ (record { block = 1; at = 0 }, grown)
unfolding arena_alloc bump arena_grow reuse_block
grows = refl

-- Nor do 20, which are more than a block has; the dedicated block at hand is in use, so a new one is
-- made.
abbrev crowded : Arena
crowded = record {
  passed = [];
  current = record { memory = 0; capacity = 16; offset = 5; dedicated = false };
  rest =
      record { memory = 1; capacity = 32; offset = 24; dedicated = true }
      ∷ record { memory = 2; capacity = 16; offset = 0; dedicated = false }
      ∷ [];
  block_size = 16;
  fresh = 3;
}

arena_alloc_example : IsGiven crowded 20 (arena_alloc crowded 20)
arena_alloc_example = arena_alloc_lem crowded 20 (inl refl, (inr refl, tt)) (omega arith)

one_not_two : (◌≢◌ {A = ℕ} 0 1)
one_not_two h = omega (arith, h)

arena_rewind_example :
    Rewound grown (arena_rewind (allocs (20 ∷ 3 ∷ 12 ∷ []) grown) (arena_checkpoint grown))
arena_rewind_example = arena_rewind_lem grown (20 ∷ 3 ∷ 12 ∷ []) ((one_not_two, tt))
