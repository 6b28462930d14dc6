-- ===== src/Server/Commands/Access.antt =====
-- Who may ask SharedServer for anything: a socket that has sent the keyword.
use mediaroom.Prelude.{ℕ, ◌≡◌, refl, length, inl, inr, Bool-cases}
use mediaroom.Server.{State, Env, Answer, close_connection, write_data}

-- Channels, bindings and the next id are those of `s`.
pub record SameChannels (s r : State) : Type 0 where
  pub channels : r.channels ≡ s.channels
  pub bound : r.bound ≡ s.bound
  pub hashes : r.hashes ≡ s.hashes
  pub next_id : r.next_id ≡ s.next_id

pub close_connection-SameChannels : (sd : ℕ) (s : State) → SameChannels s (close_connection sd s)
unfolding close_connection
close_connection-SameChannels sd s = record {
  channels = refl;
  bound = refl;
  hashes = refl;
  next_id = refl;
}

pub write_data-SameChannels :
    (env : Env) (sd : ℕ) (a : Answer) (s : State) → SameChannels s (write_data env sd a s)
unfolding write_data
write_data-SameChannels env sd a s = elim (Bool-cases (env.delivers (length s.sent) sd)) [
  | inl e ↦
      rw (e, write_data) (record { channels = refl; bound = refl; hashes = refl; next_id = refl })
  | inr e ↦ rw (e, write_data) (close_connection-SameChannels sd s)
]
