-- ===== src/Extract/Tests.antt =====
-- The theorems on extractors at small packets, and runs.
use mediaroom.Prelude.{
  ℕ, ◌+◌, ◌-◌, ◌≡◌, refl, inl, true, none, some, List, [], ◌∷◌, ◌++◌, arith, ◌==◌, if◌then◌else◌,
  replicate,
}
use mediaroom.Bytes.{Memory, load16, holding}
use mediaroom.View.{Base, get_offset, get_length, rebase}
use mediaroom.Extract.{Parent, ntohs, got, ip4, eth, m3ua, extract_eth, extract_sctp_chunk}
use mediaroom.Extract.Tags.{extract_eth-Tagged}
use mediaroom.Extract.Ends.{DataChunk, encode_chunk, Handed, extract_sctp_chunk-encode_chunk}

abbrev skip_all : Parent
skip_all = record { skip_vlan = λ p. true; skip_mpls = λ p. true }

abbrev packet : Base
packet = record { length = 100; offset = 48; own = none }

-- One VLAN tag, two MPLS labels and an IPv4 header with a total length of 74, from byte 48 on.
abbrev tags : List ℕ
tags =
    replicate 12 0
    ++ (0x81 ∷ 0 ∷ 0 ∷ 5 ∷ 0x88 ∷ 0x47 ∷ 0 ∷ 1 ∷ 0 ∷ 64 ∷ 0 ∷ 2 ∷ 1 ∷ 64 ∷ 0x45 ∷ 0 ∷ 0 ∷ 74 ∷ 0 ∷ 0
        ∷ 0 ∷ 0 ∷ 64 ∷ 6 ∷ [])

abbrev frame : Memory
frame = holding 48 tags

extract_eth-Tagged_example :
    (b' : Base) × (extract_eth skip_all frame packet ≡ got ip4 b')
    × (get_offset b' ≡ 74)
    × (get_length b' ≡ ntohs frame (get_offset b' + 2) - 26)
unfolding load16
extract_eth-Tagged_example =
    extract_eth-Tagged skip_all frame packet 1 2 (λ p. refl, λ p. refl) (omega arith) (omega arith)
      (refl, (inl refl, (refl, refl))) refl (omega arith) (omega arith) (omega arith)

-- A data chunk of M3UA, from byte 48 on.
abbrev chunk : DataChunk
chunk = record {
  flags = 3;
  order = 0 ∷ 0 ∷ 0 ∷ 1 ∷ 0 ∷ 0 ∷ 0 ∷ 2 ∷ [];
  protocol = 3;
  user = 1 ∷ 0 ∷ 1 ∷ 1 ∷ [];
}

extract_sctp_chunk-encode_chunk_example :
    Handed
      (holding 48 (encode_chunk chunk))
      packet
      (1 ∷ 0 ∷ 1 ∷ 1 ∷ [])
      (some m3ua)
      (extract_sctp_chunk (holding 48 (encode_chunk chunk)) packet)
extract_sctp_chunk-encode_chunk_example =
    extract_sctp_chunk-encode_chunk (holding 48 (encode_chunk chunk)) packet chunk
      (record { eight = refl; four = omega arith }) (ground arith) (omega arith) (omega arith)
      (omega arith)

-- Four labels: what is behind the third is taken for an Ethernet frame.
four_labels :
    extract_eth skip_all (λ p. if p == 60 then 0x88 else if p == 61 then 0x47 else 0) packet
    ≡ got eth (record { length = 74; offset = 74; own = none })
unfolding extract_eth load16 rebase
four_labels = refl
