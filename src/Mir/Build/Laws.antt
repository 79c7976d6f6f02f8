-- ===== src/Mir/Build/Laws.antt =====
-- The blocks and values of a function are numbered by their place in it, and appending finds them
-- again.
use gab.Prelude.{
  ℕ, zero, suc, ◌+◌, ◌<◌, ◌≤◌, ◌≡◌, refl, ◌||◌, Option, none, some, List, [], ◌∷◌, ◌++◌, arith,
  ◌==◌, leb, ◌∙◌, Bool, true, false, ◌≢◌, sym, subst₂, if◌then◌else◌, length,
}
use gab.Types.{TypeRef}
use gab.Mir.{
  ValueId, BlockId, no_id, op_is_terminator, Op, first_target, second_target, Inst, Block, Function,
  Span, block_count, value_count,
}
use gab.Mir.Build.{
  get_elem?, block_create, block_at, value_create, value_info, emit, block_is_terminated,
  block_successors, op_targets, last_inst,
}

-- The blocks are numbered from the first argument on.
abbrev NumberedFrom : ℕ → List Block → Type 0
NumberedFrom n [] = Unit
NumberedFrom n (block ∷ blocks) = (block.id ≡ n) × NumberedFrom (suc n) blocks

-- Each block's id is its index.
abbrev pub IsNumbered : Function → Type 0
IsNumbered ir = NumberedFrom 0 ir.blocks

NumberedFrom-append :
    (n : ℕ) (blocks : List Block) (block : Block)
    → NumberedFrom n blocks
    → block.id ≡ n + length blocks
    → NumberedFrom n (blocks ++ block ∷ [])
NumberedFrom-append n [] block h e = (ground (arith, e), tt)
NumberedFrom-append n (b ∷ bs) block h e =
    (h.0, NumberedFrom-append (suc n) bs block h.1 (ground (arith, e)))

same_test {ℓ} :
    {A : Type ℓ}
    → (i n : ℕ) (a b : A) → (if i == n then a else b) ≡ (if suc i == suc n then a else b)
same_test i n a b = ground arith

get_elem?-append {ℓ} :
    {A : Type ℓ}
    → (xs : List A) (x : A) (i : ℕ)
    → get_elem? (xs ++ x ∷ []) i ≡ (if i == length xs then some x else get_elem? xs i)
unfolding get_elem?
get_elem?-append [] x zero = refl
get_elem?-append [] x (suc i) = ground arith
get_elem?-append (y ∷ xs) x zero = ground arith
get_elem?-append (y ∷ xs) x (suc i) =
    get_elem?-append xs x i ∙ same_test i (length xs) (some x) (get_elem? xs i)

get_elem?-past {ℓ} : {A : Type ℓ} → (xs : List A) (i : ℕ) → length xs ≤ i → get_elem? xs i ≡ none
unfolding get_elem?
get_elem?-past [] i h = refl
get_elem?-past (x ∷ xs) zero h = absurd (omega arith)
get_elem?-past (x ∷ xs) (suc i) h = get_elem?-past xs i (omega arith)

-- Reading an array at an id that may be `no_id` or past its end.
abbrev guarded {ℓ} : {A : Type ℓ} → List A → ℕ → Option A
guarded xs i = if (i == no_id) || leb (length xs) i then none else get_elem? xs i

guarded-eq {ℓ} :
    {A : Type ℓ}
    → (xs : List A) (i : ℕ) → guarded xs i ≡ (if i == no_id then none else get_elem? xs i)
guarded-eq xs i = ground (arith, get_elem?-past xs i)

-- `no_id` is past every index of an array that is not full.
append_test {ℓ} :
    {A : Type ℓ}
    → (n i : ℕ) (new old : Option A) → n < no_id
    → (if i == no_id then none else if i == n then new else old)
      ≡ (if i == n then new else if i == no_id then none else old)
append_test n i new old h = ground arith

guarded-append {ℓ} :
    {A : Type ℓ}
    → (xs : List A) (x : A) (i : ℕ) → length xs < no_id
    → guarded (xs ++ x ∷ []) i ≡ (if i == length xs then some x else guarded xs i)
guarded-append xs x i h =
    rw (guarded-eq (xs ++ x ∷ []) i, guarded-eq xs i, get_elem?-append xs x i)
      (append_test (length xs) i (some x) (get_elem? xs i) h)

-- Creating a block in a function whose blocks are numbered, where an id is left: the blocks stay
-- numbered, the new block is found at its id, and every other id gives what it gave.
pub block_create_lem :
    (ir : Function) (id : BlockId)
    → IsNumbered ir
    → block_count ir < no_id
    → IsNumbered (block_create ir).1
      × (block_at (block_create ir).1 id
          ≡ (if id == (block_create ir).0.id then some (block_create ir).0 else block_at ir id))
unfolding block_create block_at
block_create_lem ir id numbered room = (
  NumberedFrom-append 0 ir.blocks (record { id = block_count ir; insts = [] }) numbered
      (omega arith),
  guarded-append ir.blocks (record { id = block_count ir; insts = [] }) id room,
)

-- Creating a value where an id is left gives an id at which its type, binding and span are found, and
-- every other id gives what it gave.
pub value_create_lem :
    (ir : Function) (type : Option TypeRef) (binding : Option ℕ) (span : Span) (value : ValueId)
    → value_count ir < no_id
    → value_info (value_create ir type binding span).1 value ≡ (
        if value == (value_create ir type binding span).0
        then some (record { type = type; binding = binding; span = span })
        else value_info ir value)
unfolding value_create value_info
value_create_lem ir type binding span value room =
    guarded-append ir.values (record { type = type; binding = binding; span = span }) value room

last_inst-append : (insts : List Inst) (inst : Inst) → last_inst (insts ++ inst ∷ []) ≡ some inst
unfolding last_inst
last_inst-append [] inst = refl
last_inst-append (a ∷ []) inst = refl
last_inst-append (a ∷ b ∷ insts) inst = last_inst-append (b ∷ insts) inst

-- What the last instruction of a block makes of it, by its operation and the targets it names: whether
-- the block is terminated, and where control goes on.
pub data Ends : Op → BlockId → BlockId → Bool → List BlockId → Type 0 where
  jumps : {first second : BlockId} → Ends Op.jmp first second true (first ∷ [])
  branches : {first second : BlockId} → Ends Op.branch first second true (first ∷ second ∷ [])
  returns : {first second : BlockId} → Ends Op.return first second true []
  traps : {first second : BlockId} → Ends Op.unreachable first second true []
  carries_on :
      {op : Op} {first second : BlockId}
      → op ≢ Op.jmp
      → op ≢ Op.branch
      → op ≢ Op.return
      → op ≢ Op.unreachable
      → Ends op first second false []

op-Ends :
    (op : Op) (first second : BlockId)
    → Ends op first second
        (op_is_terminator op)
        (if op_is_terminator op then op_targets op first second else [])
op-Ends Op.jmp first second = jumps
op-Ends Op.branch first second = branches
op-Ends Op.return first second = returns
op-Ends Op.unreachable first second = traps
op-Ends _ first second =
    carries_on (λ e. absurd (cc e)) (λ e. absurd (cc e)) (λ e. absurd (cc e)) (λ e. absurd (cc e))

terminated-append :
    (block : Block) (inst : Inst) → block_is_terminated (emit block inst) ≡ op_is_terminator inst.op
unfolding emit block_is_terminated
terminated-append block inst = rw (block_is_terminated, last_inst-append block.insts inst) refl

successors-append :
    (block : Block) (inst : Inst)
    → block_successors (emit block inst) ≡ (
        if op_is_terminator inst.op
        then op_targets inst.op (first_target inst.payload) (second_target inst.payload)
        else [])
unfolding emit block_successors
successors-append block inst =
    rw (terminated-append block inst, last_inst-append block.insts inst) refl

-- After an instruction is appended to a block, the block is terminated exactly if the instruction is
-- a jump, a branch, a return or unreachable, and its successors are the first target of a jump, both
-- targets of a branch, and none for the other operations.
pub emit_lem :
    (block : Block) (inst : Inst)
    → Ends inst.op
        (first_target inst.payload)
        (second_target inst.payload)
        (block_is_terminated (emit block inst))
        (block_successors (emit block inst))
emit_lem block inst =
    subst₂ (Ends inst.op (first_target inst.payload) (second_target inst.payload))
      (sym (terminated-append block inst)) (sym (successors-append block inst))
      (op-Ends inst.op (first_target inst.payload) (second_target inst.payload))
