-- ===== src/View/Tests.antt =====
-- The theorems on pointers and layers at a packet of 100 bytes behind its header.
use mediaroom.Prelude.{◌+◌, ◌≡◌, refl, some, arith}
use mediaroom.View.{Base, get_offset, get_length, Layer, enter, make, push, payload, payload_length}
use mediaroom.View.Moves.{push-payload}

-- A TCP header on an IPv4 header, by an offset of the pointer's own.
abbrev packet : Base
packet = record { length = 100; offset = 48; own = some 62 }

abbrev tcp_layer : Layer
tcp_layer = make (enter packet 20) 20

push-payload_example :
    (payload tcp_layer ≡ some (get_offset (push tcp_layer)))
    × (payload_length tcp_layer ≡ some (get_length (push tcp_layer)))
    × (get_offset (push tcp_layer) + get_length (push tcp_layer) ≡ 148)
push-payload_example =
    push-payload tcp_layer (omega arith) (omega arith) (omega arith) (omega arith)

pushed : push tcp_layer ≡ record { length = 100; offset = 48; own = some 102 }
unfolding push
pushed = refl
