-- ===== src/Server/Commands/Bindings.antt =====
-- Which channel a hash is bound to.
use mediaroom.Prelude.{
  ℕ, ◌+◌, ◌≡◌, ◌≢◌, ◌∙◌, refl, sym, true, Option, none, some, List, [], ◌∷◌, ◌++◌, arith, ◌==◌,
  length-append, if◌then◌else◌, inl, inr, length, Option-cases, Bool-cases,
}
use mathlib.Core.List.{append_assoc}
use mediaroom.Server.{
  State, Env, Channel, Answer, find, insert, erase, erase_all, find_channel, no_channels,
  bind_found, write_data, bind_chan, close_chan,
}
use mediaroom.Server.Commands.Access.{write_data-SameChannels}

module _ {ℓ} {A : Type ℓ} where
  pub find-insert :
      (q k : ℕ) (a : A) (m : List (ℕ × A))
      → find q (insert k a m)
        ≡ elim (find k m) [ none ↦ (if k == q then some a else find q m) | some _ ↦ find q m ]
  unfolding find insert
  find-insert q k a [] = ground arith
  find-insert q k a ((j, b) ∷ m) = ground (arith, find-insert q k a m)

  pub find-erase_ne : (q k : ℕ) (m : List (ℕ × A)) → k ≢ q → find q (erase k m) ≡ find q m
  unfolding find erase
  find-erase_ne q k [] ne = refl
  find-erase_ne q k ((j, b) ∷ m) ne = ground (arith, find-erase_ne q k m)

find_channel-id :
    (sd id : ℕ) (cs : List (ℕ × Channel)) {c : Channel} → find_channel sd id cs ≡ some c → c.id ≡ id
unfolding find_channel
find_channel-id sd id [] e = cc
find_channel-id sd id ((s, h) ∷ cs) {c} e = ground (arith, find_channel-id sd id cs {c = c})

-- What a bind leaves under a hash `q`.
abbrev pub bound_to : ℕ → ℕ → Option Channel → Option Channel → List (ℕ × Channel) → Option Channel
bound_to q hash (some c) none m = if hash == q then some c else find q m
bound_to q hash _ _ m = find q m

bind_found-hashes :
    (env : Env) (sd id hash q : ℕ) (found : Option Channel) (s : State)
    → find q (bind_found env sd id hash found s).1.hashes
      ≡ bound_to q hash found (find hash s.hashes) s.hashes
unfolding bind_found
bind_found-hashes env sd id hash q none s =
    rw ((write_data-SameChannels env sd (Answer.nacked 0) s).hashes) refl
bind_found-hashes env sd id hash q (some c) s = elim (Option-cases (find hash s.hashes)) [
  | inl e ↦
      rw (e, bind_found, (write_data-SameChannels env sd (Answer.acked id []) _).hashes)
        (find-insert q hash c s.hashes ∙ rw (e) refl)
  | inr (d, e) ↦
      rw (e, bind_found, (write_data-SameChannels env sd (Answer.nacked id) s).hashes) refl
]

-- A bind takes effect exactly where the socket has a channel of that id and the hash is free: it
-- binds the hash to that channel. It never changes what another hash, or a bound one, is bound to.
pub bind_chan-hashes :
    (env : Env) (sd id hash q : ℕ) (s : State)
    → find q (bind_chan env sd id hash s).1.hashes
      ≡ bound_to q hash (find_channel sd id s.channels) (find hash s.hashes) s.hashes
unfolding bind_chan
bind_chan-hashes env sd id hash q s =
    let told = (write_data-SameChannels env sd (Answer.nacked 0) s).hashes in
    elim (Bool-cases (no_channels sd s.channels)) [
      | inl e ↦ rw (e) (
          bind_found-hashes env sd id hash q (find_channel sd id s.channels)
            (write_data env sd (Answer.nacked 0) s)
          ∙ rw (told) refl)
      | inr e ↦ rw (e) (bind_found-hashes env sd id hash q (find_channel sd id s.channels) s)
    ]

no_channels-find_channel :
    (sd id : ℕ) (cs : List (ℕ × Channel)) → no_channels sd cs ≡ true → find_channel sd id cs ≡ none
unfolding no_channels find_channel
no_channels-find_channel sd id [] e = refl
no_channels-find_channel sd id ((s, c) ∷ cs) e = ground (arith, no_channels-find_channel sd id cs)

write_data-sent :
    (env : Env) (sd : ℕ) (a : Answer) (s : State)
    → env.delivers (length s.sent) sd ≡ true
    → (write_data env sd a s).sent ≡ s.sent ++ (sd, a) ∷ []
unfolding write_data
write_data-sent env sd a s h = rw (h) refl

-- A client without channels gets two answers to a bind, both "nacked", when both are delivered.
pub bind_chan_twice :
    (env : Env) (sd id hash : ℕ) (s : State)
    → no_channels sd s.channels ≡ true
    → env.delivers (length s.sent) sd ≡ true
    → env.delivers (length s.sent + 1) sd ≡ true
    → (bind_chan env sd id hash s).1.sent
      ≡ s.sent ++ (sd, Answer.nacked 0) ∷ (sd, Answer.nacked 0) ∷ []
unfolding bind_chan
bind_chan_twice env sd id hash s h a b =
    let one = write_data-sent env sd (Answer.nacked 0) s a in
    rw (no_channels-find_channel sd id s.channels h, h)
      (write_data-sent env sd (Answer.nacked 0) (write_data env sd (Answer.nacked 0) s)
          (rw (one, length-append s.sent ((sd, Answer.nacked 0) ∷ [])) b)
        ∙ rw (one) (append_assoc s.sent _ _))

module _ {ℓ} {A : Type ℓ} where
  erase-insert : (k : ℕ) (a : A) (m : List (ℕ × A)) → find k m ≡ none → erase k (insert k a m) ≡ m
  unfolding find insert erase
  erase-insert k a [] e = ground arith
  erase-insert k a ((j, b) ∷ m) e = ground (arith, erase-insert k a m)

  erase-insert_ne :
      (j k : ℕ) (a : A) (m : List (ℕ × A)) → j ≢ k → erase k (insert j a m) ≡ insert j a (erase k m)
  unfolding insert erase
  erase-insert_ne j k a [] ne = ground arith
  erase-insert_ne j k a ((x, b) ∷ m) ne = ground (arith, erase-insert_ne j k a m)

module _ {ℓ} {A : Type ℓ} where
  find-insert_twice :
      (k : ℕ) (a b : A) (m : List (ℕ × A))
      → find k m ≡ none
      → find k (insert k b (insert k a m)) ≡ some a
  unfolding find insert
  find-insert_twice k a b [] e = ground arith
  find-insert_twice k a b ((j, x) ∷ m) e = ground (arith, find-insert_twice k a b m)

-- The state after a bind of a free hash to a channel of an id that no hash is bound to yet.
bind_chan-binds :
    (env : Env) (sd id hash : ℕ) (c : Channel) (s : State)
    → find_channel sd id s.channels ≡ some c
    → find hash s.hashes ≡ none
    → let r = (bind_chan env sd id hash s).1 in
      (r.channels ≡ s.channels)
      × (r.hashes ≡ insert hash c s.hashes)
      × (r.bound ≡ insert id (hash ∷ []) s.bound)
unfolding bind_chan
bind_chan-binds env sd id hash c s found free = elim (Bool-cases (no_channels sd s.channels)) [
  | inl e ↦ absurd (ground (arith, no_channels-find_channel sd id s.channels e))
  | inr e ↦
      let k =
        write_data-SameChannels env sd (Answer.acked id [])
          (record s { hashes = insert hash c s.hashes; bound = insert id (hash ∷ []) s.bound }) in
      rw (e, found, bind_found, free) (k.channels, k.hashes, k.bound)
]

close_chan-hashes :
    (env : Env) (sd id : ℕ) (hs : List ℕ) (s : State)
    → find id s.bound ≡ some hs
    → (close_chan env sd id s).hashes ≡ erase_all hs s.hashes
unfolding close_chan
close_chan-hashes env sd id hs s e =
    rw ((write_data-SameChannels env sd (Answer.acked id []) _).hashes, e) refl

-- A channel that has two hashes bound to it, and is closed then, gives back the first of them
-- only: the second stays bound to the channel that is gone.
pub close_chan-keeps_second :
    (env : Env) (sd id h g : ℕ) (c : Channel) (s : State)
    → find_channel sd id s.channels ≡ some c
    → find h s.hashes ≡ none
    → find g s.hashes ≡ none
    → find id s.bound ≡ none
    → h ≢ g
    → let bound_twice = (bind_chan env sd id g (bind_chan env sd id h s).1).1 in
      (close_chan env sd id bound_twice).hashes ≡ insert g c s.hashes
unfolding erase_all
close_chan-keeps_second env sd id h g c s found free_h free_g unbound ne =
    let t = (bind_chan env sd id h s).1 in
    let one = bind_chan-binds env sd id h c s found free_h in
    let free : find g t.hashes ≡ none =
      rw (one.1) (find-insert g h c s.hashes ∙ rw (free_h) (ground arith)) in
    let two = bind_chan-binds env sd id g c t (rw (one.0) found) free in
    close_chan-hashes env sd id (h ∷ []) _
      (rw (two.2, one.2) (find-insert_twice id (h ∷ []) (g ∷ []) s.bound unbound))
    ∙ rw (two.1, one.1)
        (erase-insert_ne g h c (insert h c s.hashes) (λ e. ne (sym e))
          ∙ rw (erase-insert h c s.hashes free_h) refl)
