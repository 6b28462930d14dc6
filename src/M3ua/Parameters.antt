-- ===== src/M3ua/Parameters.antt =====
-- Which parameters of an M3UA message are found, and where the search does not end.
use mediaroom.Prelude.{
  ℕ, zero, suc, ◌+◌, ◌-◌, ◌*◌, ◌/◌, ◌%◌, ◌≤◌, ◌<◌, ◌≡◌, ◌≢◌, refl, ap, ◌∙◌, true, false, some, List,
  [], ◌∷◌, ◌++◌, arith, ltb, leb, ◌==◌, length, length-append,
}
use mathlib.Core.Path.{subst}
use mathlib.Core.List.{append_assoc}
use mediaroom.Bytes.{Memory, HasBytes, HasBytes-right}
use mediaroom.View.{Base, get_offset, get_length}
use mediaroom.View.Moves.{IsBase, Shows, offset_ptr-Shows}
use mediaroom.Extract.{got, sccp, ntohs}
use mediaroom.Sccp.{ok, endless, add16}
use mediaroom.M3ua.{m3ua_size, protocol_data, m3ua_loop, extract_m3ua}

-- A parameter with the two bytes of its tag.
pub record Parameter : Type 0 where
  pub high : ℕ
  pub low : ℕ
  pub value : List ℕ

-- The length of a parameter counts its tag and length. No padding is between two parameters: these
-- are the parameters of a message where the length of each value is a multiple of 4.
abbrev pub encode_all : List Parameter → List ℕ
encode_all [] = []
encode_all (p ∷ ps) =
    p.high ∷ p.low ∷ (4 + length p.value) / 256 ∷ (4 + length p.value) % 256 ∷ p.value
    ++ encode_all ps

abbrev pub Others : List Parameter → Type 0
Others [] = Unit {0}
Others (p ∷ ps) = (256 * p.high + p.low ≢ 0x0210) × Others ps

-- Protocol data of SCCP: `label` are the two point codes, `a`, `c` and `e` the bytes between the
-- service indicator and the user data.
abbrev pub sccp_data : (length1 length0 : ℕ) → List ℕ → (a c e : ℕ) → List ℕ → List ℕ
sccp_data length1 length0 label a c e user =
    2 ∷ 16 ∷ length1 ∷ length0 ∷ label ++ (3 ∷ a ∷ c ∷ e ∷ user)

protocol_data-sccp :
    (m : Memory) (b : Base) (offset length1 length0 : ℕ) (label : List ℕ) (a c e : ℕ)
    (user : List ℕ)
    → length label ≡ 8
    → HasBytes m (get_offset b + offset) (sccp_data length1 length0 label a c e user)
    → offset + 16 < 65536
    → protocol_data m b offset
      ≡ (offset + 4, got sccp (record b { own = some ((offset + 16 + get_offset b) % 65536) }))
unfolding protocol_data
protocol_data-sccp m b offset length1 length0 label a c e user eight (_, (_, (_, (_, h)))) small =
    let si =
      HasBytes-right m (get_offset b + offset + 1 + 1 + 1 + 1) label (3 ∷ a ∷ c ∷ e ∷ user) h in
    let si' : m (get_offset b + offset + 12) ≡ 3 = ap m (omega arith) ∙ si.0 in
    let four : add16 offset 4 ≡ offset + 4 = omega arith in
    let sixteen : add16 offset 16 ≡ offset + 16 = omega arith in rw (si', four, sixteen) refl

m3ua_loop-sccp :
    (fuel : ℕ) (m : Memory) (b : Base) (size offset : ℕ) (ps : List Parameter) (rest : List ℕ)
    → length ps < fuel
    → Others ps
    → HasBytes m (get_offset b + offset) (encode_all ps ++ (2 ∷ 16 ∷ rest))
    → offset + length (encode_all ps) ≤ size
    → size < 65536
    → m3ua_loop fuel m b size offset
      ≡ ok (some (protocol_data m b (offset + length (encode_all ps))))
unfolding m3ua_loop
m3ua_loop-sccp zero m b size offset ps rest enough others has inside small = absurd (omega arith)
m3ua_loop-sccp (suc fuel) m b size offset [] rest enough others (e, (f, _)) inside small =
    let here : leb offset size ≡ true = ground arith in
    let tag : (ntohs m (get_offset b + offset) == 0x0210) ≡ true = ground arith in
    rw (here, tag) (ap (λ k. ok (some (protocol_data m b k))) (omega arith))
m3ua_loop-sccp (suc fuel) m b size offset (p ∷ ps) rest enough (ne, others) (e, (f, (g, (h, has))))
      inside small =
    let here : leb offset size ≡ true = ground arith in
    let tag : (ntohs m (get_offset b + offset) == 0x0210) ≡ false = ground arith in
    let long : length (encode_all (p ∷ ps)) ≡ 4 + length p.value + length (encode_all ps) =
      omega (arith, length-append p.value (encode_all ps)) in
    let upper : m (get_offset b + offset + 2) ≡ (4 + length p.value) / 256 =
      ap m (omega arith) ∙ g in
    let lower : m (get_offset b + offset + 2 + 1) ≡ (4 + length p.value) % 256 =
      ap m (omega arith) ∙ h in
    let claimed : ntohs m (get_offset b + offset + 2) ≡ 4 + length p.value = omega arith in
    let next : add16 offset (ntohs m (get_offset b + offset + 2)) ≡ offset + 4 + length p.value =
      rw (claimed) (omega arith) in
    let behind =
      HasBytes-right m (get_offset b + offset + 1 + 1 + 1 + 1) p.value
        (encode_all ps ++ (2 ∷ 16 ∷ rest))
        (subst (HasBytes m (get_offset b + offset + 1 + 1 + 1 + 1))
          (append_assoc p.value (encode_all ps) (2 ∷ 16 ∷ rest)) has) in
    rw (here, tag)
      (ap (m3ua_loop fuel m b size) next
        ∙ m3ua_loop-sccp fuel m b size (offset + 4 + length p.value) ps rest (omega arith) others
            (subst (λ q. HasBytes m q (encode_all ps ++ (2 ∷ 16 ∷ rest))) (omega arith) behind)
            (omega arith) small
        ∙ ap (λ k. ok (some (protocol_data m b k))) (omega arith))

-- A parameter that is not the protocol data, and claims a length of zero, is read for ever.
m3ua_loop-endless :
    (fuel : ℕ) (m : Memory) (b : Base) (size offset : ℕ)
    → offset ≤ size
    → size < 65536
    → ntohs m (get_offset b + offset) ≢ 0x0210
    → ntohs m (get_offset b + offset + 2) ≡ 0
    → m3ua_loop fuel m b size offset ≡ endless
unfolding m3ua_loop
m3ua_loop-endless zero m b size offset inside small other none_long = refl
m3ua_loop-endless (suc fuel) m b size offset inside small other none_long =
    let here : leb offset size ≡ true = ground arith in
    let tag : (ntohs m (get_offset b + offset) == 0x0210) ≡ false = ground arith in
    let same : add16 offset (ntohs m (get_offset b + offset + 2)) ≡ offset =
      rw (none_long) (omega arith) in
    rw (here, tag)
      (ap (m3ua_loop fuel m b size) same
        ∙ m3ua_loop-endless fuel m b size offset inside small other none_long)

-- A message with SCCP protocol data behind any number of other parameters, which follow each other
-- without padding, as M3UA has them where the lengths of their values are multiples of 4, all
-- within the length that the header claims: extractM3ua hands SCCP a pointer to the user data, which has the rest of
-- the packet's length, and gives pushM3ua the place of the point codes. One round for each
-- parameter and one for the protocol data are enough. The message's start is one of a packet,
-- which has all that stands in front of the user data, and these begin below byte `2 ^ 16`.
pub extract_m3ua-sccp :
    (fuel : ℕ) (m : Memory) (b : Base) (ps : List Parameter) (length1 length0 : ℕ) (label : List ℕ)
    (a c e : ℕ) (user : List ℕ)
    → length ps < fuel
    → Others ps
    → length label ≡ 8
    → HasBytes m (get_offset b + 8) (encode_all ps ++ sccp_data length1 length0 label a c e user)
    → 8 + length (encode_all ps) + 16 ≤ m3ua_size m b
    → IsBase b
    → get_offset b + 8 + length (encode_all ps) + 16 < 65536
    → 8 + length (encode_all ps) + 16 ≤ get_length b
    → (b' : Base) × (extract_m3ua fuel m b ≡ ok (8 + length (encode_all ps) + 4, got sccp b'))
      × Shows b'
          (get_offset b + 8 + length (encode_all ps) + 16)
          (get_length b - (8 + length (encode_all ps) + 16))
      × HasBytes m (get_offset b') user
unfolding extract_m3ua
extract_m3ua-sccp fuel m b ps length1 length0 label a c e user enough others eight has inside base
      below fits =
    let offset : ℕ = 8 + length (encode_all ps) in
    let here : get_offset b + 8 + length (encode_all ps) ≡ get_offset b + offset = omega arith in
    let has_pdata =
      subst (λ q. HasBytes m q (sccp_data length1 length0 label a c e user)) here
        (HasBytes-right m (get_offset b + 8) (encode_all ps)
          (sccp_data length1 length0 label a c e user) has) in
    let found =
      m3ua_loop-sccp fuel m b (m3ua_size m b) 8 ps
        (length1 ∷ length0 ∷ label ++ (3 ∷ a ∷ c ∷ e ∷ user)) enough others has (omega arith)
        (omega arith)
      ∙ ap (λ r. ok (some r))
          (protocol_data-sccp m b offset length1 length0 label a c e user eight has_pdata
            (omega arith)) in
    let behind =
      HasBytes-right m (get_offset b + offset + 1 + 1 + 1 + 1) label (3 ∷ a ∷ c ∷ e ∷ user)
        has_pdata.1.1.1.1 in
    let (at, rest) = offset_ptr-Shows b (offset + 16) base (omega arith) fits in
    let some_long : ltb 8 (m3ua_size m b) ≡ true = ground arith in
    (
      record b { own = some ((offset + 16 + get_offset b) % 65536) },
      rw (some_long, found) refl,
      (at ∙ omega arith, rest),
      subst (λ q. HasBytes m q user) (omega (arith, at)) behind.1.1.1.1,
    )

-- A message of more than eight bytes whose first parameter is not the protocol data and claims a
-- length of zero holds the loop of extractM3ua for ever.
pub extract_m3ua_endless :
    (fuel : ℕ) (m : Memory) (b : Base)
    → 8 < m3ua_size m b
    → ntohs m (get_offset b + 8) ≢ 0x0210
    → ntohs m (get_offset b + 8 + 2) ≡ 0
    → extract_m3ua fuel m b ≡ endless
unfolding extract_m3ua
extract_m3ua_endless fuel m b long other none_long =
    let some_long : ltb 8 (m3ua_size m b) ≡ true = ground arith in
    rw
      (
        some_long,
        m3ua_loop-endless fuel m b (m3ua_size m b) 8 (omega arith) (omega arith) other none_long,
      )
      refl
