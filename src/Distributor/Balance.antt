-- ===== src/Distributor/Balance.antt =====
-- SharedFlowDistributor: which handler has a flow, and how many flows each handler has.
use mediaroom.Prelude.{
  ℕ, ◌+◌, ◌≤◌, ◌<◌, ◌≡◌, refl, sym, ap, ◌∙◌, inl, inr, Bool, true, false, Option, none, some, List,
  [], ◌∷◌, ◌++◌, ltb, ◌==◌, arith, Bool-cases,
}
use mathlib.Core.Path.{subst}
use mediaroom.Block.{Block}
use mediaroom.FlowKey.{get_flow_idx}
use mediaroom.FlowAccum.{later}
use mediaroom.Distributor.{
  Handler, lookup, push, Distributor, start_flow, set_handler, push_to, next_handler, handle_found,
  handle_block, then_blocks, handle_blocks,
}
use mediaroom.Distributor.Known.{is_some, is_at, known-push, more-found, more-next, placed-next}

abbrev to_nat : Bool → ℕ
to_nat true = 1
to_nat false = 0

-- How many flows are assigned to the handler `i`.
unfoldable pub flows_of : ℕ → List (ℕ × ℕ) → ℕ
flows_of i [] = 0
flows_of i ((idx, j) ∷ assigned) = to_nat (j == i) + flows_of i assigned

-- What the distributor keeps: its place in the list is inside or at the end, the handlers before
-- it have one flow more than the others, and a handler knows a flow just where it is assigned
-- to it.
pub record Shared (d : Distributor) : Type 0 where
  pub rounds : ℕ
  pub inside : d.current ≤ d.count
  pub even :
      (i : ℕ) → i < d.count → flows_of i d.assigned ≡ rounds + to_nat (ltb i (next_handler d))
  pub known :
      (i idx : ℕ)
      → i < d.count
      → is_some (lookup idx (d.handlers i)) ≡ is_at i (lookup idx d.assigned)
  pub placed : (idx i : ℕ) → lookup idx d.assigned ≡ some i → i < d.count

flows_of-append :
    (i idx j : ℕ) (m : List (ℕ × ℕ))
    → flows_of i (m ++ ((idx, j) ∷ [])) ≡ flows_of i m + to_nat (j == i)
unfolding flows_of
flows_of-append i idx j [] = omega arith
flows_of-append i idx j ((k, h) ∷ m) = omega (arith, flows_of-append i idx j m)

-- The handlers in turn: who has a flow more.
turn-last :
    (rounds i r n : ℕ)
    → i < n
    → (r + 1 == n) ≡ true
    → rounds + to_nat (ltb i r) + to_nat (r == i) ≡ rounds + 1 + to_nat (ltb i 0)
turn-last rounds i r n h e = ground arith

turn-next :
    (rounds i r : ℕ) → rounds + to_nat (ltb i r) + to_nat (r == i) ≡ rounds + to_nat (ltb i (r + 1))
turn-next rounds i r = ground arith

next_handler-inside :
    (d : Distributor) → 0 < d.count → d.current ≤ d.count → next_handler d < d.count
next_handler-inside d h k = ground arith

-- The distributor behind the assignment of a flow, with any handlers.
abbrev assigned_next : ℕ → Distributor → (ℕ → Handler) → Distributor
assigned_next idx d handlers = record d {
  handlers = handlers;
  assigned = d.assigned ++ ((idx, next_handler d) ∷ []);
  current = next_handler d + 1;
}

assigned_next-Shared :
    (idx : ℕ) (d : Distributor) (handlers : ℕ → Handler)
    → Shared d
    → next_handler d < d.count
    → ((i k : ℕ)
        → i < d.count
        → is_some (lookup k (handlers i))
          ≡ is_at i (lookup k (d.assigned ++ ((idx, next_handler d) ∷ []))))
    → Shared (assigned_next idx d handlers)
assigned_next-Shared idx d handlers s h known =
    let r : ℕ = next_handler d in
    let placed : (k i : ℕ) → lookup k (d.assigned ++ ((idx, r) ∷ [])) ≡ some i → i < d.count =
      placed-next idx r d.count d.assigned h s.placed in
    elim (Bool-cases (r + 1 == d.count)) [
      | inl e ↦ record {
        rounds = s.rounds + 1;
        inside = omega arith;
        even = λ i k.
            flows_of-append i idx r d.assigned
            ∙ ap (λ n. n + to_nat (r == i)) (s.even i k)
            ∙ rw (e) (turn-last s.rounds i r d.count k e);
        known = known;
        placed = placed;
      }
      | inr e ↦ record {
        rounds = s.rounds;
        inside = omega arith;
        even = λ i k.
            flows_of-append i idx r d.assigned
            ∙ ap (λ n. n + to_nat (r == i)) (s.even i k)
            ∙ rw (e) (turn-next s.rounds i r);
        known = known;
        placed = placed;
      }
    ]

-- What a block leaves.
abbrev pub Answered : Distributor → Option Distributor → Type 0
Answered d none = ⊥
Answered d (some r) = Shared r × (r.count ≡ d.count)

Answered-count :
    (d r : Distributor) (o : Option Distributor) → r.count ≡ d.count → Answered r o → Answered d o
Answered-count d r none c h = h
Answered-count d r (some t) c (s, e) = (s, e ∙ c)

push_to-inside :
    (now key : ℕ) (b : Block) (i : ℕ) (d : Distributor)
    → i < d.count
    → push_to now key b i d
      ≡ some (record d { handlers = set_handler d.handlers i (push now key b (d.handlers i)) })
push_to-inside now key b i d h = let t : ltb i d.count ≡ true = ground arith in rw (t) refl

handle_found-Answered :
    (now key : ℕ) (b : Block) (found : Option ℕ) (d : Distributor)
    → found ≡ lookup (get_flow_idx key) d.assigned
    → 0 < d.count
    → Shared d
    → Answered d (handle_found now key b found d)
handle_found-Answered now key b (some i) d e h s =
    let idx : ℕ = get_flow_idx key in
    let handlers : ℕ → Handler = set_handler d.handlers i (push now key b (d.handlers i)) in
    subst (Answered d) (sym (push_to-inside now key b i d (s.placed idx i (sym e)))) (
      record {
        rounds = s.rounds;
        inside = s.inside;
        even = s.even;
        known =
            known-push now key i d.count b d.handlers d.assigned d.assigned s.known
              (more-found idx i d.assigned (sym e));
        placed = s.placed;
      },
      refl,
    )
handle_found-Answered now key b none d e h s =
    let idx : ℕ = get_flow_idx key in
    let r : ℕ = next_handler d in
    let inside : r < d.count = next_handler-inside d h s.inside in
    let next : Distributor = assigned_next idx d d.handlers in
    subst (Answered d) (sym (push_to-inside now key b r next inside)) (
      assigned_next-Shared idx d (set_handler d.handlers r (push now key b (d.handlers r))) s inside
          (known-push now key r d.count b d.handlers d.assigned (d.assigned ++ ((idx, r) ∷ []))
            s.known (more-next idx r d.assigned (sym e))),
      refl,
    )

handle_block-Answered :
    (now key : ℕ) (b : Block) (d : Distributor)
    → 0 < d.count
    → Shared d
    → Answered d (handle_block now key b d)
unfolding handle_block
handle_block-Answered now key b d h s = elim (Bool-cases (b.type == start_flow)) [
  | inl e ↦
      rw (e) (handle_found-Answered now key b (lookup (get_flow_idx key) d.assigned) d refl h s)
  | inr e ↦ rw (e) (s, refl)
]

Answered-next :
    (d : Distributor) (o : Option Distributor) (go : Distributor → Option Distributor)
    → Answered d o
    → ((r : Distributor) → Shared r → r.count ≡ d.count → Answered r (go r))
    → Answered d (then_blocks go o)
Answered-next d none go h next = h
Answered-next d (some r) go (s, c) next = Answered-count d r (go r) c (next r s c)

handle_blocks-Answered :
    (clock : ℕ → ℕ) (bs : List (ℕ × Block)) (d : Distributor)
    → 0 < d.count
    → Shared d
    → Answered d (handle_blocks clock bs d)
unfolding handle_blocks
handle_blocks-Answered clock [] d h s = (s, refl)
handle_blocks-Answered clock ((key, b) ∷ bs) d h s =
    Answered-next d (handle_block (clock 0) key b d) (handle_blocks (later clock) bs)
      (handle_block-Answered (clock 0) key b d h s)
      (λ r t c. handle_blocks-Answered (later clock) bs r (omega (arith, c)) t)

answer :
    (d : Distributor) (o : Option Distributor)
    → Answered d o
    → (r : Distributor) × (o ≡ some r) × Shared r × (r.count ≡ d.count)
answer d none h = absurd h
answer d (some r) (s, c) = (r, refl, s, c)

to_nat-bounds : (b : Bool) → to_nat b ≤ 1
to_nat-bounds true = omega arith
to_nat-bounds false = omega arith

-- With at least one handler, and from a distributor that keeps its maps in step (as one without
-- flows does, whose place is the first handler or the end): for any blocks, the distributor reads
-- nothing behind the end of a list, and keeps its maps in step: a flow is known to the handler
-- that it is assigned to and to no other. The numbers of flows of any two handlers then differ
-- by one at most.
pub handle_blocks-Shared :
    (clock : ℕ → ℕ) (bs : List (ℕ × Block)) (d : Distributor)
    → 0 < d.count
    → Shared d
    → (r : Distributor) × (handle_blocks clock bs d ≡ some r)
      × Shared r
      × ((i j : ℕ) → i < d.count → j < d.count → flows_of i r.assigned ≤ flows_of j r.assigned + 1)
handle_blocks-Shared clock bs d h s =
    let (r, e, t, c) =
      answer d (handle_blocks clock bs d) (handle_blocks-Answered clock bs d h s) in
    (
      r,
      e,
      t,
      λ i j k l. omega (
        arith,
        t.even i (omega (arith, c)),
        t.even j (omega (arith, c)),
        to_nat-bounds (ltb i (next_handler r)),
      ),
    )
