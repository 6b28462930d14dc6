-- ===== src/Layers/Tests.antt =====
-- The two directions of one TCP flow, and the theorems on addresses at this input.
use mediaroom.Prelude.{ℕ, zero, suc, ◌≡◌, refl, false, some, List, [], ◌∷◌, ◌++◌, arith}
use mediaroom.Bytes.{Memory, load16, load32}
use mediaroom.Layers.{Limits, Details, init, no_layer}
use mediaroom.Layers.Push.{Header, push_all}
use mediaroom.Layers.Push.Counts.{Fair, Counted, push_all-Counted, init-Counted}
use mediaroom.Layers.Push.Hash.{push_all-Swapped}

abbrev pub memory : List ℕ → Memory
memory [] i = 0
memory (x ∷ xs) zero = x
memory (x ∷ xs) (suc i) = memory xs i

-- The addresses of an IPv4 header at 0, and the ports behind it.
abbrev pub packet : List ℕ → List ℕ → List ℕ → List ℕ → Memory
packet src dst from to =
    memory (69 ∷ 0 ∷ 0 ∷ 40 ∷ 0 ∷ 0 ∷ 0 ∷ 0 ∷ 64 ∷ 6 ∷ 0 ∷ 0 ∷ (src ++ (dst ++ (from ++ to))))

abbrev pub client : List ℕ
client = 10 ∷ 0 ∷ 0 ∷ 1 ∷ []

abbrev pub server : List ℕ
server = 10 ∷ 0 ∷ 0 ∷ 2 ∷ []

abbrev pub request : Memory
request = packet client server (200 ∷ 1 ∷ []) (0 ∷ 80 ∷ [])

abbrev pub response : Memory
response = packet server client (0 ∷ 80 ∷ []) (200 ∷ 1 ∷ [])

abbrev pub limits : Limits
limits = record { layers2 = 2; layers3 = 2; layers4 = 2 }

abbrev pub blank : Details
blank = record {
  flow_hash = 0;
  last_ip_layer = 0;
  last_mtp_layer = 0;
  last_m3ua_layer = 0;
  layers_cnt = 0;
  layers2_cnt = 0;
  layers3_cnt = 0;
  layers4_cnt = 0;
  more2_layers = false;
  more3_layers = false;
  more4_layers = false;
  layers = λ i. 0;
}

abbrev headers : List Header
headers = Header.ip4 0 false ∷ Header.tcp 20 ∷ []

-- What the two headers leave.
abbrev pub pushed : Details
pushed = record {
  flow_hash = 50441236;
  last_ip_layer = 0;
  last_mtp_layer = no_layer;
  last_m3ua_layer = no_layer;
  layers_cnt = 2;
  layers2_cnt = 0;
  layers3_cnt = 1;
  layers4_cnt = 1;
  more2_layers = false;
  more3_layers = false;
  more4_layers = false;
  layers = memory (388 ∷ 645 ∷ []);
}

push_all-Counted_example :
    (d : Details) × (push_all limits request headers (init blank) ≡ some d) × Counted limits d
push_all-Counted_example =
    push_all-Counted limits (record { sum = omega arith; some3 = omega arith; some4 = omega arith })
      request headers (init blank) (omega arith) (tt, (tt, tt))
      (init-Counted limits (record { sum = omega arith; some3 = omega arith; some4 = omega arith })
        blank)

push_all-Swapped_example :
    push_all limits request headers (init blank) ≡ push_all limits response headers (init blank)
unfolding load16 load32
push_all-Swapped_example =
    push_all-Swapped limits request response headers (init blank) ((refl, refl), ((refl, refl), tt))

abbrev fair : Fair limits
fair = record { sum = omega arith; some3 = omega arith; some4 = omega arith }

-- Two headers of the third layer are all that these limits admit.
abbrev third : Details
third = record (init blank) { layers_cnt = 2; layers3_cnt = 2 }
