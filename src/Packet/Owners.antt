-- ===== src/Packet/Owners.antt =====
-- src/core/Packet.h and lib/libstack/PacketPtr.h: the variables of type Pkt and PktOffset, which
-- own packets through a unique_ptr that calls Packet::free, and what is done with them. The
-- packets are in no chain.
pub mod Counts
pub mod Uses
use mediaroom.Prelude.{
  ℕ, zero, suc, ◌+◌, ◌<◌, ◌≡◌, Bool, true, false, Option, none, some, List, [], ◌∷◌, ◌==◌,
  if◌then◌else◌, length,
}
use mediaroom.Packet.{
  Packet, Heap, Run, done, fault, endless, ◌>>=◌, free, alloc_packet, clone, offset_clone,
}

-- The pointers of the variables, none being null, and the memory.
pub record Variables : Type 0 where
  pub pointers : List (Option ℕ)
  pub heap : Heap

-- getPtr of the variable `i`
unfoldable pub pointer : ℕ → List (Option ℕ) → Option ℕ
pointer i [] = none
pointer zero (v ∷ vs) = v
pointer (suc i) (v ∷ vs) = pointer i vs

-- setPtr
unfoldable pub set_pointer : ℕ → Option ℕ → List (Option ℕ) → List (Option ℕ)
set_pointer i v [] = []
set_pointer zero v (w ∷ vs) = v ∷ vs
set_pointer (suc i) v (w ∷ vs) = w ∷ set_pointer i v vs

-- PacketDeleter, for the pointer that a unique_ptr has let go of.
abbrev pub delete : Option ℕ → Variables → Run Variables
delete none s = done s
delete (some p) s = free 1 p s.heap >>= λ h. done (record s { heap = h })

-- What is done with variables: a packet is allocated for one, it is moved to a new one or
-- assigned to another, destroyed, or cloned to a new one, as a Pkt or as a PktOffset.
pub data Use : Type 0 where
  allocated : (i p length : ℕ) → Use
  moved : (i j : ℕ) → Use
  assigned : (i j : ℕ) → Use
  destroyed : ℕ → Use
  cloned : (offset : Bool) → (i j : ℕ) → Use

-- The clone of the packet at a pointer: the null pointer is dereferenced.
abbrev pub clone_at : Bool → Option ℕ → ℕ → Variables → Run Variables
clone_at offset none j s = fault
clone_at true (some p) j s = offset_clone p s.heap >>= λ h.
    done (record { pointers = set_pointer j (some p) s.pointers; heap = h })
clone_at false (some p) j s =
    clone p s.heap >>= λ h. done (record { pointers = set_pointer j (some p) s.pointers; heap = h })

-- Both a move and an assignment take the pointer out of `i` first.
abbrev pub taken : ℕ → Variables → List (Option ℕ)
taken i s = set_pointer i none s.pointers

unfoldable pub use_variable : Use → Variables → Run Variables
use_variable (Use.allocated i p length) s =
    done
      (record { pointers = set_pointer i (some p) s.pointers; heap = alloc_packet p length s.heap })
use_variable (Use.moved i j) s =
    done (record s { pointers = set_pointer j (pointer i s.pointers) (taken i s) })
use_variable (Use.assigned i j) s =
    delete (pointer j (taken i s))
      (record s { pointers = set_pointer j (pointer i s.pointers) (taken i s) })
use_variable (Use.destroyed i) s = delete (pointer i s.pointers) (record s { pointers = taken i s })
use_variable (Use.cloned offset i j) s = clone_at offset (pointer i s.pointers) j s

unfoldable pub use_variables : List Use → Variables → Run Variables
unfolding use_variable
use_variables [] s = done s
use_variables (u ∷ us) s = use_variable u s >>= use_variables us

-- What the program keeps to: variables that there are, new ones where a Pkt is constructed, memory
-- that malloc had not handed out, and no clone of null.
abbrev pub Allowed : Use → Variables → Type 0
Allowed (Use.allocated i p n) s =
    (i < length s.pointers) × (pointer i s.pointers ≡ none) × (s.heap p ≡ none)
Allowed (Use.moved i j) s =
    (i < length s.pointers) × (j < length s.pointers) × (pointer j s.pointers ≡ none)
Allowed (Use.assigned i j) s = (i < length s.pointers) × (j < length s.pointers)
Allowed (Use.destroyed i) s = i < length s.pointers
Allowed (Use.cloned offset i j) s =
    (j < length s.pointers)
    × (pointer j s.pointers ≡ none)
    × (p : ℕ) × (pointer i s.pointers ≡ some p)

abbrev pub AllowedAfter : (Variables → Type 0) → Run Variables → Type 0
AllowedAfter P (done s) = P s
AllowedAfter P fault = Unit {0}
AllowedAfter P endless = Unit {0}

unfoldable pub AllowedAll : List Use → Variables → Type 0
unfolding use_variable
AllowedAll [] s = Unit {0}
AllowedAll (u ∷ us) s = Allowed u s × AllowedAfter (AllowedAll us) (use_variable u s)
