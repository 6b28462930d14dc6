-- ===== src/Layers/Lookup.antt =====
-- PacketDetails: the lookups of one address of a packet. A result of none is a failed assertion,
-- some none the null pointer, and otherwise the offset of the address with the type that the out
-- parameter has then.
use mediaroom.Prelude.{
  ℕ, ◌+◌, ◌-◌, ◌*◌, ◌/◌, ◌%◌, ◌^◌, ◌≤◌, ◌<◌, ◌≡◌, ◌≢◌, Bool, true, false, not, ◌&&◌, Option, none,
  some, ltb, ◌==◌, if◌then◌else◌, arith,
}
use mediaroom.Bytes.{Memory, load16, load32}
use mediaroom.Layers.{Limits, Details, no_layer, encode, get_type, get_offset, get_mix}
use mediaroom.Layers.Push.{push_ip4, push_mtp, append_layer, replace_layer, push_rl}
use mediaroom.Layers.Push.Counts.{Fair, Counted}
use mediaroom.Layers.Address.{Layer, layers_count, layer_addr}

abbrev pub Found : Type 0
Found = Option (Option (ℕ × ℕ))

-- The address of a layer, or its second part at `dst`.
abbrev part : Bool → (Layer → ℕ) → Option Layer → Found
part src dst none = none
part src dst (some a) = some (some (if src then a.addr else a.addr + dst a, a.type))

abbrev half : Layer → ℕ
half a = a.len / 2

pub get_ip_addr : Bool → Details → Found
get_ip_addr src d =
    let found = part src half (layer_addr d d.last_ip_layer) in
    if d.last_ip_layer == no_layer then some none else found

-- The out parameter stays as it is for M3ua.
abbrev keep_type : ℕ → Found → Found
keep_type type none = none
keep_type type (some none) = some none
keep_type type (some (some (addr, _))) = some (some (addr, type))

pub get_port : Limits → Bool → ℕ → Details → Found
get_port l src type d =
    let m3ua = keep_type type (part src (λ a. 2) (layer_addr d (d.last_m3ua_layer - 1))) in
    if type == 14
    then if not (d.last_m3ua_layer == no_layer) && ltb 2 d.last_m3ua_layer then m3ua else some none
    else elim (layers_count l d) [
      | none ↦ none
      | some (n, d') ↦
          let found = part src half (layer_addr d' (d'.last_ip_layer + 1)) in
          if not (d'.last_ip_layer == no_layer) && ltb (d'.last_ip_layer + 1) n
          then found
          else some none
    ]

pub get_rl : Details → Found
get_rl d =
    let found = part true half (layer_addr d d.last_mtp_layer) in
    if d.last_mtp_layer == no_layer then some none else found

pub get_cic : Limits → Details → Found
get_cic l d = elim (layers_count l d) [
  | none ↦ none
  | some (n, d') ↦
      let found = part true half (layer_addr d' (d'.last_mtp_layer + 1)) in
      if not (d'.last_mtp_layer == no_layer) && ltb (d'.last_mtp_layer + 1) n
      then found
      else some none
]

-- LS_ntohl and LS_ntohs
abbrev swap32 : ℕ → ℕ
swap32 v = v % 256 * 2 ^ 24 + v / 256 % 256 * 2 ^ 16 + v / 2 ^ 16 % 256 * 256 + v / 2 ^ 24 % 256

abbrev swap16 : ℕ → ℕ
swap16 v = v % 256 * 256 + v / 256 % 256

abbrev map_layer : (Layer → ℕ × ℕ) → Option Layer → Option (ℕ × ℕ)
map_layer f none = none
map_layer f (some a) = some (f a)

-- The point code and the type, which stays as it is where there is no layer.
pub get_pc : Memory → Bool → ℕ → Details → Option (ℕ × ℕ)
get_pc packet src type d =
    let m3ua =
      map_layer (λ a. (swap32 (load32 packet (if src then a.addr else a.addr + 4)), a.type))
        (layer_addr d d.last_m3ua_layer) in
    let mtp =
      map_layer (λ a. (swap16 (load16 packet (if src then a.addr else a.addr + 2)), a.type))
        (layer_addr d d.last_mtp_layer) in
    if not (d.last_m3ua_layer == no_layer)
    then m3ua
    else if not (d.last_mtp_layer == no_layer)
    then mtp
    else some (0, type)

-- There is a result, and this holds of it.
abbrev pub Leaves : Option Details → (Details → Type 0) → Type 0
Leaves none P = ⊥
Leaves (some d) P = P d

-- An IPv4 header that finds room is the one that getIpAddr returns the addresses of: the source
-- 12 bytes into the header, and the destination 4 bytes behind, for a header in the first 2036
-- bytes of the packet.
pub push_ip4-get_ip_addr :
    (l : Limits) (fair : Fair l) (p : Memory) (o : ℕ) (mix : Bool) (d : Details)
    → Counted l d
    → d.layers3_cnt ≢ l.layers3
    → o + 12 < 2048
    → Leaves (push_ip4 l p o mix d) (λ d'.
      (get_ip_addr true d' ≡ some (some (o + 12, 4)))
      × (get_ip_addr false d' ≡ some (some (o + 16, 4))))
unfolding push_ip4 append_layer encode get_ip_addr layer_addr get_type get_offset get_mix
push_ip4-get_ip_addr l fair p o mix d c room fits = ground arith

-- Where the limit of its layers is reached, pushMtp marks a layer that is not there, and getRl
-- stops the program at its assertion.
pub push_mtp-get_rl :
    (l : Limits) (fair : Fair l) (p : Memory) (o : ℕ) (d : Details)
    → Counted l d
    → d.layers3_cnt ≡ l.layers3
    → d.layers_cnt ≢ 255
    → o + 4 ≤ 0x3FFF
    → Leaves (push_mtp l p o d) (λ d'. get_rl d' ≡ none)
unfolding push_mtp push_rl replace_layer encode get_rl layer_addr
push_mtp-get_rl l fair p o d c full more fits = ground arith
