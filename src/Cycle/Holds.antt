-- ===== src/Cycle/Holds.antt =====
-- The messages that a CycleBuffer holds between its tail and its head, and what write1 adds.
use mediaroom.Prelude.{
  ℕ, ◌+◌, ◌≤◌, ◌<◌, ◌≡◌, ◌⊎◌, ◌∙◌, inl, inr, refl, sym, List, [], ◌∷◌, ◌++◌, arith, length,
}
use mathlib.Core.Path.{subst}
use mediaroom.Bytes.{
  Memory, memcpy, bytes, store16, load16, memcpy_below, memcpy_above, bytes-memcpy, bytes_agree,
  load16-store16, store16_ne, load16_agree,
}
use mediaroom.Cycle.{Cycle}
use mediaroom.Cycle.Path.{
  length_pos, data_pos, end_pos, Fits, Within, Occupied, OnPath, Within-Occupied, end_pos-OnPath,
  Fits-grow,
}
use mediaroom.Cycle.Write.{IsValid, put, Room, Room-Grows, Room-free, Room-Fits}

-- The message `x` stands at `t`.
pub record Entry (m : Memory) (s h t : ℕ) (x : List ℕ) : Type 0 where
  pub short : length x < 65536
  pub start : t < s
  pub fits : Fits s h t (length x)
  pub prefix : load16 m (length_pos s t) ≡ length x
  pub content : bytes m (data_pos s t (length x)) (length x) ≡ x

-- The messages `q` stand one after another from `t` to the head `h`.
abbrev pub Holds : Memory → ℕ → ℕ → ℕ → List (List ℕ) → Type 0
Holds m s h t [] = t ≡ h
Holds m s h t (x ∷ q) = Entry m s h t x × Holds m s h (end_pos s t (length x)) q

-- A write leaves alone what lies between the tail and the head.
put_untouched :
    {c : Cycle} (x : List ℕ) (q : ℕ)
    → IsValid c
    → Room c (length x)
    → Occupied c.tail c.head q
    → (put c x).memory q ≡ c.memory q
put_untouched {c} x q v room o =
    let p = length_pos c.size c.head in
    let d = data_pos c.size c.head (length x) in
    ground (
      arith,
      Room-free (length x) q v room,
      memcpy_below (store16 c.memory p (length x)) d x q,
      memcpy_above (store16 c.memory p (length x)) d x q,
      store16_ne c.memory p (length x) q,
    )

Entry-put :
    {c : Cycle} (x : List ℕ) (t : ℕ) (y : List ℕ)
    → IsValid c
    → Room c (length x)
    → OnPath c.size c.tail c.head t
    → Entry c.memory c.size c.head t y
    → Entry (put c x).memory c.size (put c x).head t y
Entry-put {c} x t y v room path e =
    let n = length y in
    let same = λ (q : ℕ) (w : Within c.size t n q).
      put_untouched x q v room
        (Within-Occupied c.size c.tail c.head t n q v.head_in e.start path e.fits w) in
    record {
      short = e.short;
      start = e.start;
      fits =
          Fits-grow c.size c.tail c.head _ t n v.head_in e.start path (Room-Grows (length x) v room)
            e.fits;
      prefix =
          load16_agree c.memory _ (length_pos c.size t) (same _ (inl (omega arith, omega arith)))
            (same _ (inl (omega arith, omega arith)))
          ∙ e.prefix;
      content =
          bytes_agree c.memory _ (data_pos c.size t n) n (λ q a b. same q (inr (a, b))) ∙ e.content;
    }

Entry-new :
    {c : Cycle} (x : List ℕ)
    → IsValid c
    → Room c (length x)
    → length x < 65536
    → Entry (put c x).memory c.size (put c x).head c.head x
Entry-new {c} x v room b =
    let n = length x in
    let p = length_pos c.size c.head in
    let d = data_pos c.size c.head n in
    let m = store16 c.memory p n in
    record {
      short = b;
      start = v.head_in;
      fits = Room-Fits n v room;
      prefix =
          load16_agree m _ p (kept m d x p (ground arith)) (kept m d x (p + 1) (ground arith))
          ∙ load16-store16 c.memory p n b;
      content = bytes-memcpy m d x;
    }
  where
    kept :
        (m : Memory) (d : ℕ) (x : List ℕ) (q : ℕ)
        → (q < d) ⊎ (d + length x ≤ q)
        → memcpy m d x q ≡ m q
    kept m d x q (inl h) = memcpy_below m d x q h
    kept m d x q (inr h) = memcpy_above m d x q h

-- A write with room appends its message to those that are held from any position on the path.
pub Holds-put :
    {c : Cycle} (x : List ℕ) (t : ℕ) (q : List (List ℕ))
    → IsValid c
    → Room c (length x)
    → length x < 65536
    → OnPath c.size c.tail c.head t
    → Holds c.memory c.size c.head t q
    → Holds (put c x).memory c.size (put c x).head t (q ++ x ∷ [])
Holds-put {c} x t [] v room b path e =
    subst (λ t. Holds (put c x).memory c.size (put c x).head t (x ∷ [])) (sym e)
      (Entry-new x v room b, refl)
Holds-put {c} x t (y ∷ q) v room b path (e, rest) = (
  Entry-put x t y v room path e,
  Holds-put x (end_pos c.size t (length y)) q v room b
      (end_pos-OnPath c.size c.tail c.head t (length y) v.head_in e.start path e.fits) rest,
)
