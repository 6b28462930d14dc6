-- ===== src/Server/Loop/Frames.antt =====
-- How SharedServer puts commands together from the bytes of a client.
use mediaroom.Prelude.{
  ℕ, ◌+◌, ◌-◌, ◌≤◌, ◌<◌, ◌≡◌, ◌∙◌, inl, inr, refl, sym, ap, true, false, Option, none, some, List,
  [], ◌∷◌, ◌++◌, ltb, ◌==◌, arith, length, length-append, Bool-cases,
}
use mathlib.Core.Path.{subst}
use mathlib.Core.List.{append_assoc, append-nil}
use mediaroom.Server.{State, Env, Command, SocketState, find, erase, close_connection}
use mediaroom.Server.Commands.{process_commands, is_keyword}
use mediaroom.Server.Loop.{
  command_size, Received, failed, would_block, ended, got, read, take_command, to_command,
  handle_bytes, reset,
}

-- The bytes that come before the connection is out of them.
abbrev pub arrived : List Received → List ℕ
arrived (got xs ∷ rs) = xs ++ arrived rs
arrived _ = []

-- The connection neither fails nor ends, and recv never returns more than it was asked for.
abbrev pub Answers : ℕ → List Received → Type 0
Answers want [] = Unit {0}
Answers want (failed ∷ rs) = ⊥
Answers want (would_block ∷ rs) = Unit {0}
Answers want (ended ∷ rs) = ⊥
Answers want (got xs ∷ rs) = (length xs ≤ want) × Answers (want - length xs) rs

arrived-le : (want : ℕ) (rs : List Received) → Answers want rs → length (arrived rs) ≤ want
arrived-le want [] h = omega arith
arrived-le want (failed ∷ rs) h = absurd h
arrived-le want (would_block ∷ rs) h = omega arith
arrived-le want (ended ∷ rs) h = absurd h
arrived-le want (got xs ∷ rs) (h, k) =
    omega (arith, h, arrived-le (want - length xs) rs k, length-append xs (arrived rs))

empty : (xs : List ℕ) → length xs ≤ 0 → xs ≡ []
empty [] h = refl
empty (x ∷ xs) h = absurd (omega (arith, h))

read-arrived :
    (want : ℕ) (have : List ℕ) (rs : List Received)
    → Answers want rs
    → read want have rs ≡ some (have ++ arrived rs)
unfolding read
read-arrived want have [] h = ap some (sym (append-nil have))
read-arrived want have (failed ∷ rs) h = absurd h
read-arrived want have (would_block ∷ rs) h = ap some (sym (append-nil have))
read-arrived want have (ended ∷ rs) h = absurd h
read-arrived want have (got xs ∷ rs) (h, k) = elim (Bool-cases (length xs == want)) [
  | inl e ↦
      let nothing : arrived rs ≡ [] =
        empty (arrived rs) (ground (arith, arrived-le (want - length xs) rs k)) in
      rw (e) (ap some (rw (nothing, append-nil xs) refl))
  | inr e ↦
      let short : ltb (length xs) want ≡ true = ground arith in
      rw (e, short)
        (read-arrived (want - length xs) (have ++ xs) rs k
          ∙ ap some (append_assoc have xs (arrived rs)))
]

-- What a connection makes of what it receives, one list of results for each time that select
-- reports the socket: the commands, and the bytes that are kept.
pub assemble : List ℕ → List (List Received) → Option (List (List ℕ) × List ℕ)
assemble have [] = some ([], have)
assemble have (rs ∷ rounds) = elim (read (command_size - length have) [] rs) [
  | none ↦ none
  | some xs ↦
      let taken = take_command have xs in
      elim (assemble taken.1 rounds) [
        | none ↦ none
        | some (cs, last) ↦ elim taken.0 [ none ↦ some (cs, last) | some c ↦ some (c ∷ cs, last) ]
      ]
]

abbrev pub concat : List (List ℕ) → List ℕ
concat [] = []
concat (xs ∷ xss) = xs ++ concat xss

abbrev pub stream : List (List Received) → List ℕ
stream [] = []
stream (rs ∷ rounds) = arrived rs ++ stream rounds

abbrev pub Whole : List (List ℕ) → Type 0
Whole [] = Unit {0}
Whole (c ∷ cs) = (length c ≡ command_size) × Whole cs

-- As `Answers`, for each time that the socket is read from, with `have` kept before.
abbrev pub Alive : List ℕ → List (List Received) → Type 0
Alive have [] = Unit {0}
Alive have (rs ∷ rounds) =
    Answers (command_size - length have) rs × Alive (take_command have (arrived rs)).1 rounds

take_command-whole :
    (have xs : List ℕ)
    → (length have + length xs == command_size) ≡ true
    → take_command have xs ≡ (some (have ++ xs), [])
unfolding take_command
take_command-whole have xs e = rw (e) refl

take_command-part :
    (have xs : List ℕ)
    → (length have + length xs == command_size) ≡ false
    → take_command have xs ≡ (none, have ++ xs)
unfolding take_command
take_command-part have xs e = rw (e) refl

abbrev taken_of : Option (List ℕ) × List ℕ → Option (List ℕ)
taken_of (taken, kept) = taken

abbrev kept_of : Option (List ℕ) × List ℕ → List ℕ
kept_of (taken, kept) = kept

prepend : Option (List ℕ) → List (List ℕ) → List (List ℕ)
prepend none cs = cs
prepend (some c) cs = c ∷ cs

assemble-step :
    (have : List ℕ) (rs : List Received) (rounds : List (List Received)) {xs kept last : List ℕ}
    {taken : Option (List ℕ)} {cs : List (List ℕ)}
    → read (command_size - length have) [] rs ≡ some xs
    → (take_command have xs).0 ≡ taken
    → (take_command have xs).1 ≡ kept
    → assemble kept rounds ≡ some (cs, last)
    → assemble have (rs ∷ rounds) ≡ some (prepend taken cs, last)
unfolding assemble prepend
assemble-step have rs rounds {taken = none} a b k c = rw (a, assemble, k, c, b) refl
assemble-step have rs rounds {taken = some x} a b k c = rw (a, assemble, k, c, b) refl

-- However the stream of a client is cut, and however the reads are spread over time, the commands
-- that are put together are whole, and they are the stream in its order: with the bytes that are
-- kept behind them, which make less than a command, nothing is lost, added or moved. This holds
-- from less than a command of kept bytes on, while the connection neither fails nor ends, and
-- recv never gives more bytes than it is asked for.
pub assemble-stream :
    (have : List ℕ) (rounds : List (List Received))
    → length have < command_size
    → Alive have rounds
    → (cs : List (List ℕ)) × (last : List ℕ) × (assemble have rounds ≡ some (cs, last))
      × (concat cs ++ last ≡ have ++ stream rounds)
      × Whole cs
      × (length last < command_size)
unfolding assemble prepend
assemble-stream have [] short alive = ([], have, refl, sym (append-nil have), tt, short)
assemble-stream have (rs ∷ rounds) short (answers, alive) =
    let here = read-arrived (command_size - length have) [] rs answers in
    let fits = arrived-le (command_size - length have) rs answers in
    let kept = length-append have (arrived rs) in
    elim (Bool-cases (length have + length (arrived rs) == command_size)) [
      | inl e ↦
          let (cs, last, r, all, whole, rest) = assemble-stream [] rounds (omega arith) (
            subst (λ (t : Option (List ℕ) × List ℕ). Alive t.1 rounds)
              (take_command-whole have (arrived rs) e) alive) in
          (
            (have ++ arrived rs) ∷ cs,
            last,
            assemble-step have rs rounds here (ap taken_of (take_command-whole have (arrived rs) e))
                (ap kept_of (take_command-whole have (arrived rs) e)) r,
            append_assoc (have ++ arrived rs) (concat cs) last
                ∙ ap (λ (l : List ℕ). (have ++ arrived rs) ++ l) all
                ∙ append_assoc have (arrived rs) (stream rounds),
            (ground arith, whole),
            rest,
          )
      | inr e ↦
          let (cs, last, r, all, whole, rest) =
            assemble-stream (have ++ arrived rs) rounds (ground arith) (
              subst (λ (t : Option (List ℕ) × List ℕ). Alive t.1 rounds)
                (take_command-part have (arrived rs) e) alive) in
          (
            cs,
            last,
            assemble-step have rs rounds here (ap taken_of (take_command-part have (arrived rs) e))
                (ap kept_of (take_command-part have (arrived rs) e)) r,
            all ∙ append_assoc have (arrived rs) (stream rounds),
            whole,
            rest,
          )
    ]

reset-gone : (sd : ℕ) (r : State) → find sd r.partial ≡ none → reset sd (some r) ≡ none
reset-gone sd r e = rw (reset, e) refl

spam-closes :
    (env : Env) (to_string : ℕ → List ℕ) (sd : ℕ) (c : Command) (s : State) {state : SocketState}
    → find sd s.sockets ≡ some state
    → c.cmd ≡ 0
    → is_keyword c.text ≡ false
    → process_commands env to_string sd c s ≡ some (close_connection sd s)
unfolding process_commands
spam-closes env to_string sd c s e zero spam = rw (e, process_commands, zero, spam) refl

closed-partial : (sd : ℕ) (s : State) → (close_connection sd s).partial ≡ erase sd s.partial
unfolding close_connection
closed-partial sd s = refl

-- A whole SS_INIT command without the keyword closes the connection, and the loop then writes to
-- the entry of the socket that is not there any more.
pub handle_bytes_spam :
    (env : Env) (to_string : ℕ → List ℕ) (sd : ℕ) (s : State) (bytes kept : List ℕ)
    {state : SocketState}
    → find sd s.sockets ≡ some state
    → find sd (erase sd s.partial) ≡ none
    → (to_command bytes).cmd ≡ 0
    → is_keyword (to_command bytes).text ≡ false
    → handle_bytes env to_string sd s (some bytes, kept) ≡ none
unfolding handle_bytes
handle_bytes_spam env to_string sd s bytes kept e once zero spam =
    ap (reset sd) (spam-closes env to_string sd (to_command bytes) s e zero spam)
    ∙ reset-gone sd (close_connection sd s) (ap (find sd) (closed-partial sd s) ∙ once)
