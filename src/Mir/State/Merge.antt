-- ===== src/Mir/State/Merge.antt =====
-- Whole states: a merge merges value by value, and an invalidation leaves no live borrow.
use gab.Prelude.{
  ℕ, ◌≡◌, ◌≢◌, refl, inl, inr, Bool, true, false, ◌&&◌, List, [], ◌∷◌, arith, ◌==◌, Bool-cases, sym,
  ◌∙◌, ap, if◌then◌else◌,
}
use gab.Mir.{ValueId}
use gab.Mir.State.{
  unreached, Slot, plain, slot_merge, State, find_slot, put_slot, state_get, state_set,
  merge_entries, state_merge,
}
use gab.Mir.State.Look.{
  IsProper, IsProper-plain, slot_merge-unreached_left, slot_merge-unreached_right,
}
use gab.Mir.State.Lattice.{slot_merge-IsProper}

-- The entries name different values.
abbrev pub IsFresh : ValueId → List (ValueId × Slot) → Type 0
IsFresh v [] = Unit
IsFresh v ((w, s) ∷ rest) = (v ≢ w) × IsFresh v rest

abbrev pub IsMap : List (ValueId × Slot) → Type 0
IsMap [] = Unit
IsMap ((v, s) ∷ rest) = IsFresh v rest × IsMap rest

abbrev pub EntriesProper : List (ValueId × Slot) → Type 0
EntriesProper [] = Unit
EntriesProper ((v, s) ∷ rest) = IsProper s × EntriesProper rest

-- What every state of the checker satisfies.
pub record IsValid (s : State) : Type 0 where
  pub map : IsMap s.slots
  pub proper : EntriesProper s.slots

find_slot-IsProper :
    (es : List (ValueId × Slot)) (v : ValueId) → EntriesProper es → IsProper (find_slot es v)
unfolding find_slot
find_slot-IsProper [] v h = IsProper-plain unreached
find_slot-IsProper ((w, s) ∷ rest) v h = elim (Bool-cases (w == v)) [
  | inl e ↦ rw e h.0
  | inr ne ↦ rw ne (find_slot-IsProper rest v h.1)
]

-- A read after a write.
pub find-put :
    (es : List (ValueId × Slot)) (v w : ValueId) (s : Slot)
    → find_slot (put_slot es v s) w ≡ (if v == w then s else find_slot es w)
unfolding find_slot put_slot
find-put [] v w s = refl
find-put ((u, t) ∷ rest) v w s = ground (arith, find-put rest v w s)

put-EntriesProper :
    (es : List (ValueId × Slot)) (v : ValueId) (s : Slot)
    → EntriesProper es
    → IsProper s
    → EntriesProper (put_slot es v s)
unfolding put_slot
put-EntriesProper [] v s h p = (p, tt)
put-EntriesProper ((u, t) ∷ rest) v s h p = elim (Bool-cases (u == v)) [
  | inl e ↦ rw e ((p, h.1))
  | inr ne ↦ rw ne ((h.0, put-EntriesProper rest v s h.1 p))
]

put-IsFresh :
    (es : List (ValueId × Slot)) (u v : ValueId) (s : Slot)
    → IsFresh u es
    → u ≢ v
    → IsFresh u (put_slot es v s)
unfolding put_slot
put-IsFresh [] u v s h ne = (ne, tt)
put-IsFresh ((w, t) ∷ rest) u v s h ne = elim (Bool-cases (w == v)) [
  | inl e ↦ rw e h
  | inr d ↦ rw d ((h.0, put-IsFresh rest u v s h.1 ne))
]

ne_of_test : (u v : ℕ) → (u == v) ≡ false → u ≢ v
ne_of_test u v h = ground arith

put-IsMap :
    (es : List (ValueId × Slot)) (v : ValueId) (s : Slot) → IsMap es → IsMap (put_slot es v s)
unfolding put_slot
put-IsMap [] v s h = (tt, tt)
put-IsMap ((u, t) ∷ rest) v s h = elim (Bool-cases (u == v)) [
  | inl e ↦ rw e h
  | inr d ↦ rw d ((put-IsFresh rest u v s h.0 (ne_of_test u v d), put-IsMap rest v s h.1))
]

-- A write keeps a state valid.
state_set-IsValid :
    (s : State) (v : ValueId) (t : Slot) → IsValid s → IsProper t → IsValid (state_set s v t)
unfolding state_set
state_set-IsValid s v t h p = record {
  map = put-IsMap s.slots v t h.map;
  proper = put-EntriesProper s.slots v t h.proper p;
}

find-fresh :
    (es : List (ValueId × Slot)) (v : ValueId) → IsFresh v es → find_slot es v ≡ plain unreached
unfolding find_slot
find-fresh [] v h = refl
find-fresh ((w, s) ∷ rest) v h = ground (arith, find-fresh rest v)

merge_entries-IsValid :
    (s : State) (es : List (ValueId × Slot))
    → IsValid s
    → EntriesProper es
    → IsValid (merge_entries s es)
unfolding merge_entries state_get
merge_entries-IsValid s [] h p = h
merge_entries-IsValid s ((v, t) ∷ rest) h p =
    merge_entries-IsValid (state_set s v (slot_merge (find_slot s.slots v) t)) rest
      (state_set-IsValid s v (slot_merge (find_slot s.slots v) t) h
        (slot_merge-IsProper (find_slot s.slots v) t (find_slot-IsProper s.slots v h.proper) p.0))
      p.1

get-IsProper : (s : State) (v : ValueId) → IsValid s → IsProper (state_get s v)
unfolding state_get
get-IsProper s v h = find_slot-IsProper s.slots v h.proper

eq_of_test : (u v : ℕ) → (u == v) ≡ true → u ≡ v
eq_of_test u v h = ground arith

-- Writing the merge of one entry, then merging what the others hold.
entry_step :
    (s : State) (v w : ValueId) (t : Slot) (rest : List (ValueId × Slot))
    → IsValid s
    → IsFresh v rest
    → IsProper t
    → slot_merge (state_get (state_set s v (slot_merge (state_get s v) t)) w) (find_slot rest w)
      ≡ slot_merge (state_get s w) (if v == w then t else find_slot rest w)
unfolding state_get state_set
entry_step s v w t rest h fresh p = elim (Bool-cases (v == w)) [
  | inl e ↦
      rw (find-put s.slots v w (slot_merge (find_slot s.slots v) t), e)
        (ap (slot_merge (slot_merge (find_slot s.slots v) t))
            (ap (find_slot rest) (sym (eq_of_test v w e)) ∙ find-fresh rest v fresh)
          ∙ slot_merge-unreached_right (slot_merge (find_slot s.slots v) t) (
              slot_merge-IsProper (find_slot s.slots v) t (find_slot-IsProper s.slots v h.proper) p)
          ∙ ap (λ (u : ValueId). slot_merge (find_slot s.slots u) t) (eq_of_test v w e))
  | inr d ↦ rw (find-put s.slots v w (slot_merge (find_slot s.slots v) t), d) refl
]

-- Merging entries with different values merges value by value.
merge_entries-get :
    (s : State) (es : List (ValueId × Slot)) (w : ValueId)
    → IsValid s
    → IsMap es
    → EntriesProper es
    → state_get (merge_entries s es) w ≡ slot_merge (state_get s w) (find_slot es w)
unfolding merge_entries find_slot
merge_entries-get s [] w h m p =
    sym (slot_merge-unreached_right (state_get s w) (get-IsProper s w h))
merge_entries-get s ((v, t) ∷ rest) w h m p =
    let merged = slot_merge (state_get s v) t in
    let valid =
      state_set-IsValid s v merged h
        (slot_merge-IsProper (state_get s v) t (get-IsProper s v h) p.0) in
    merge_entries-get (state_set s v merged) rest w valid m.1 p.1
    ∙ entry_step s v w t rest h m.0 p.0

and_true : (b : Bool) → b ≡ (b && true)
and_true true = refl
and_true false = refl

merge_entries-unreachable :
    (s : State) (es : List (ValueId × Slot)) → (merge_entries s es).unreachable ≡ s.unreachable
unfolding merge_entries state_set
merge_entries-unreachable s [] = refl
merge_entries-unreachable s ((v, t) ∷ rest) =
    merge_entries-unreachable (state_set s v (slot_merge (state_get s v) t)) rest

-- What a state holds of a value: nothing where the state cannot be reached.
abbrev pub held : State → ValueId → Slot
held s v = if s.unreachable then plain unreached else state_get s v

held-IsProper : (s : State) (v : ValueId) → IsValid s → IsProper (held s v)
unfolding state_get
held-IsProper s v h = elim (Bool-cases s.unreachable) [
  | inl u ↦ rw u (IsProper-plain unreached)
  | inr r ↦ rw r (get-IsProper s v h)
]

abbrev state : List (ValueId × Slot) → Bool → State
state es u = record { slots = es; unreachable = u }

merge_parts :
    (es fs : List (ValueId × Slot)) (p q : Bool) (v : ValueId)
    → IsValid (state es p)
    → IsValid (state fs q)
    → (held (state_merge (state es p) (state fs q)) v
        ≡ slot_merge (held (state es p) v) (held (state fs q) v))
      × ((state_merge (state es p) (state fs q)).unreachable ≡ (p && q))
      × IsValid (state_merge (state es p) (state fs q))
unfolding state_merge
merge_parts es fs p true v hs ht = (
  sym (slot_merge-unreached_right (held (state es p) v) (held-IsProper (state es p) v hs)),
  and_true p,
  hs,
)
merge_parts es fs true false v hs ht =
    (sym (slot_merge-unreached_left (held (state fs false) v)), refl, ht)
merge_parts es fs false false v hs ht = (
  ap (λ (u : Bool). if u then plain unreached else state_get (merge_entries (state es false) fs) v)
        (merge_entries-unreachable (state es false) fs)
      ∙ merge_entries-get (state es false) fs v hs ht.map ht.proper,
  merge_entries-unreachable (state es false) fs,
  merge_entries-IsValid (state es false) fs hs ht.proper,
)

-- Merging two valid states gives a valid state that holds, of each value, the merge of what the two
-- hold, and that cannot be reached only if neither could.
pub state_merge_lem :
    (s t : State) (v : ValueId)
    → IsValid s
    → IsValid t
    → (held (state_merge s t) v ≡ slot_merge (held s v) (held t v))
      × ((state_merge s t).unreachable ≡ (s.unreachable && t.unreachable))
      × IsValid (state_merge s t)
state_merge_lem s t v hs ht = merge_parts s.slots t.slots s.unreachable t.unreachable v hs ht
