-- ===== src/Client/Stream.antt =====
-- From the calls of a client to the commands that the server puts together.
use mediaroom.Prelude.{
  ℕ, ◌≡◌, refl, sym, ap, ◌∙◌, Option, some, List, [], ◌∷◌, ◌++◌, arith, length, length-append,
}
use mathlib.Core.List.{append_assoc}
use mediaroom.Server.Loop.{Received}
use mediaroom.Server.Loop.Frames.{assemble, concat, stream, Whole, Alive, assemble-stream}
use mediaroom.Client.{Sent, Written, error, wrote, blocks, write}
use mediaroom.Client.Writes.{Delivered, write-Delivered}

-- The calls of a client: the bytes of each request, and what send returns in its write.
abbrev pub Calls : Type 0
Calls = List (List ℕ × List Sent)

abbrev pub requests : Calls → List (List ℕ)
requests [] = []
requests ((request, rs) ∷ calls) = request ∷ requests calls

-- What has gone out.
abbrev pub wire : Option ℕ → Calls → List ℕ
wire sock [] = []
wire sock ((request, rs) ∷ calls) = (write sock request rs).1 ++ wire sock calls

abbrev pub IsWrote : Written → Type 0
IsWrote error = ⊥
IsWrote blocks = ⊥
IsWrote (wrote n) = Unit {0}

-- Every write returned a number.
abbrev pub AllWrote : Option ℕ → Calls → Type 0
AllWrote sock [] = Unit {0}
AllWrote sock ((request, rs) ∷ calls) = IsWrote (write sock request rs).0 × AllWrote sock calls

Delivered-all : (xs : List ℕ) (r : Written × List ℕ) → Delivered xs r → IsWrote r.0 → r.1 ≡ xs
Delivered-all xs (error, out) d w = absurd w
Delivered-all xs (blocks, out) d w = absurd w
Delivered-all xs (wrote n, out) (e, ne) w = e

wire-concat :
    (sock : Option ℕ) (calls : Calls)
    → AllWrote sock calls
    → wire sock calls ≡ concat (requests calls)
wire-concat sock [] all = refl
wire-concat sock ((request, rs) ∷ calls) (w, all) =
    let out = Delivered-all request (write sock request rs) (write-Delivered sock request rs).0 w in
    ap (λ xs. xs ++ wire sock calls) out ∙ ap (λ xs. request ++ xs) (wire-concat sock calls all)

abbrev tail : List ℕ → List ℕ
tail [] = []
tail (x ∷ xs) = xs

abbrev head : List ℕ → ℕ
head [] = 0
head (x ∷ xs) = x

-- Two lists of one length are the same where they begin the same list.
append-inj : (a b x y : List ℕ) → length a ≡ length b → a ++ x ≡ b ++ y → (a ≡ b) × (x ≡ y)
append-inj [] [] x y l e = (refl, e)
append-inj [] (q ∷ b) x y l e = absurd (omega arith)
append-inj (p ∷ a) [] x y l e = absurd (omega arith)
append-inj (p ∷ a) (q ∷ b) x y l e =
    let (same, rest) = append-inj a b x y (omega arith) (ap tail e) in
    (ap (λ k. k ∷ a) (ap head e) ∙ ap (λ k. q ∷ k) same, rest)

-- Whole commands at the beginning of a stream of whole requests are the first of these.
concat-first :
    (cs rs : List (List ℕ)) (rest : List ℕ)
    → Whole cs
    → Whole rs
    → concat cs ++ rest ≡ concat rs
    → (later : List (List ℕ)) × (cs ++ later ≡ rs) × (concat later ≡ rest)
concat-first [] rs rest a b e = (rs, refl, sym e)
concat-first (c ∷ cs) [] rest (long, a) b e =
    let none_left : length ((c ++ concat cs) ++ rest) ≡ 0 = ap length e in
    absurd (omega (arith, length-append (c ++ concat cs) rest, length-append c (concat cs)))
concat-first (c ∷ cs) (r ∷ rs) rest (long, a) (long', b) e =
    let (same, further) =
      append-inj c r (concat cs ++ rest) (concat rs) (long ∙ sym long')
        (sym (append_assoc c (concat cs) rest) ∙ e) in
    let (later, all, left) = concat-first cs rs rest a b further in
    (later, ap (λ k. k ∷ cs ++ later) same ∙ ap (λ k. r ∷ k) all, left)

-- What a client asks for arrives: the commands that the server puts together are the first of the
-- client's requests, in their order and none cut or mixed, and what is missing of the others is
-- what the server keeps and what it has not read. This holds however send splits the requests and
-- however the reads are cut and spread over time, while every write of the client returns a
-- number, the connection neither fails nor ends, and recv never gives more than it is asked for.
pub requests-Arrive :
    (sock : Option ℕ) (calls : Calls) (rounds : List (List Received)) (unread : List ℕ)
    → Whole (requests calls)
    → AllWrote sock calls
    → Alive [] rounds
    → stream rounds ++ unread ≡ wire sock calls
    → (cs later : List (List ℕ)) × (last : List ℕ) × (assemble [] rounds ≡ some (cs, last))
      × (cs ++ later ≡ requests calls)
      × (concat later ≡ last ++ unread)
requests-Arrive sock calls rounds unread whole all alive e =
    let (cs, last, run, same, chunks, _) = assemble-stream [] rounds (omega arith) alive in
    let sent : concat cs ++ (last ++ unread) ≡ concat (requests calls) =
      sym (append_assoc (concat cs) last unread)
      ∙ ap (λ k. k ++ unread) same
      ∙ e
      ∙ wire-concat sock calls all in
    let (later, first, missing) =
      concat-first cs (requests calls) (last ++ unread) chunks whole sent in
    (cs, later, last, run, first, missing)
