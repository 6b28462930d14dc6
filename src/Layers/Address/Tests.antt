-- ===== src/Layers/Address/Tests.antt =====
-- The flow key of the two directions of one TCP flow.
use mediaroom.Prelude.{
  ℕ, zero, suc, ◌≡◌, ◌↔◌, refl, ap, inl, inr, Bool, true, false, Option, some, none, List, [], ◌∷◌,
  ◌++◌, arith,
}
use mathlib.Core.Path.{subst}
use mediaroom.Bytes.{Memory, store8, bytes, memcpy}
use mediaroom.Layers.{Details, get_type, get_mix, get_offset, unset_mix}
use mediaroom.Layers.Push.{set_layer}
use mediaroom.Layers.Address.{
  Layer, layers_count, layer_addr, calc_side, first_difference, compare_layer, order_bytes, order,
  fill_addresses, fill_loop, fill_layer,
}
use mediaroom.Layers.Address.Compare.{cmp_addresses}
use mediaroom.Layers.Address.Key.{layer_key, key_loop}
use mediaroom.Layers.Address.Buffer.{flow_key, cmp_addresses-fill_addresses}
use mediaroom.Layers.Address.Symmetry.{Opposite, Reversed, flow_key-Reversed}
use mediaroom.Layers.Tests.{client, server, request, response, limits, pushed}

abbrev key : List ℕ
key = 200 ∷ 1 ∷ 0 ∷ 80 ∷ (client ++ server)

request-key : flow_key limits request pushed true ≡ some key
unfolding flow_key layers_count key_loop layer_addr layer_key bytes get_type get_offset get_mix
    unset_mix
request-key = refl

response-key : flow_key limits response pushed false ≡ some key
unfolding flow_key layers_count key_loop layer_addr layer_key bytes get_type get_offset get_mix
    unset_mix
response-key = refl

abbrev empty : Memory
empty i = 0

abbrev filled : Memory
filled = store8 (memcpy (memcpy empty 0 (200 ∷ 1 ∷ 0 ∷ 80 ∷ [])) 4 (client ++ server)) 31 12

request-filled : fill_addresses limits request pushed true empty ≡ some (12, filled)
unfolding fill_addresses layers_count fill_loop fill_layer layer_addr bytes get_type get_offset
    get_mix unset_mix
request-filled = refl

cmp_addresses-fill_addresses_example :
    (cmp_addresses limits response pushed false filled ≡ some true) ↔ (key ≡ key)
cmp_addresses-fill_addresses_example =
    cmp_addresses-fill_addresses limits request response pushed pushed true false empty request-key
      response-key request-filled

-- The layers that are read: the last IP layer is unmarked, which it was.
abbrev read : Details
read = record pushed { layers = set_layer pushed.layers 0 388 }

request_layers : layers_count limits pushed ≡ some (2, read)
unfolding layers_count unset_mix
request_layers = refl

request_side : calc_side limits request pushed ≡ some true
unfolding calc_side layers_count first_difference layer_addr compare_layer order_bytes order bytes
    get_type get_offset get_mix unset_mix
request_side = refl

abbrev from_some : Layer → Option Layer → Layer
from_some a none = a
from_some a (some b) = b

abbrev addresses : Layer
addresses = record { addr = 12; len = 8; type = 4; mask = 0; mix = false }

abbrev ports : Layer
ports = record { addr = 20; len = 4; type = 5; mask = 0; mix = false }

reversed_addresses : Opposite request response addresses
unfolding bytes
reversed_addresses = inr (inl (refl, λ h. absurd (omega arith), refl, refl))

reversed_ports : Opposite request response ports
unfolding bytes
reversed_ports = inr (inl (refl, λ h. absurd (omega arith), refl, refl))

reversed : Reversed request response read 2
unfolding layer_addr get_type get_offset get_mix
reversed zero lt a e unmixed =
    subst (Opposite request response) (ap (from_some addresses) e) reversed_addresses
reversed (suc zero) lt a e unmixed =
    subst (Opposite request response) (ap (from_some addresses) e) reversed_ports
reversed (suc (suc i)) lt a e unmixed = absurd (omega arith)

flow_key-Reversed_example :
    (t : Bool) × (calc_side limits response pushed ≡ some t)
    × (flow_key limits request pushed true ≡ flow_key limits response pushed t)
flow_key-Reversed_example =
    flow_key-Reversed limits request response pushed request_layers reversed request_side
