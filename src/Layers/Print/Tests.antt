-- ===== src/Layers/Print/Tests.antt =====
-- The text of the addresses of a TCP packet, and the theorems on it at this packet.
use mediaroom.Prelude.{ℕ, zero, suc, ◌<◌, ◌≡◌, refl, inl, some, List, [], ◌∷◌, All, arith}
use mediaroom.Bytes.{load32}
use mediaroom.Layers.{get_type, get_offset}
use mediaroom.Layers.Tests.{request, pushed, memory}
use mediaroom.Layers.Print.{
  digits, append, print_at, find_parts, print_sctp, ◌>>=◌, print_src_addr, print_dst_addr,
  print_sls_cic,
}
use mediaroom.Layers.Print.Reading.{Reads, IsBytes, print_addr-numbers}
use mediaroom.Layers.Print.Steps.{Whole}
use mediaroom.Layers.Print.Room.{print-Whole}

-- 10.0.0.1:51201
src_text :
    print_src_addr request pushed
    ≡ some (record {
      text = 49 ∷ 48 ∷ 46 ∷ 48 ∷ 46 ∷ 48 ∷ 46 ∷ 49 ∷ 58 ∷ 53 ∷ 49 ∷ 50 ∷ 48 ∷ 49 ∷ [];
      length = 14;
    })
unfolding get_type get_offset load32 digits append print_at find_parts print_sctp ◌>>=◌
    print_src_addr
src_text = refl

memory-IsBytes : (xs : List ℕ) → All (λ x. x < 256) xs → IsBytes (memory xs)
memory-IsBytes [] h q = omega arith
memory-IsBytes (x ∷ xs) (h, k) zero = h
memory-IsBytes (x ∷ xs) (h, k) (suc q) = memory-IsBytes xs k q

request-IsBytes : IsBytes request
request-IsBytes =
    memory-IsBytes
      (69 ∷ 0 ∷ 0 ∷ 40 ∷ 0 ∷ 0 ∷ 0 ∷ 0 ∷ 64 ∷ 6 ∷ 0 ∷ 0 ∷ 10 ∷ 0 ∷ 0 ∷ 1 ∷ 10 ∷ 0 ∷ 0 ∷ 2 ∷ 200 ∷ 1
        ∷ 0 ∷ 80 ∷ [])
      (ground arith)

print_addr-numbers_example :
    Reads (print_src_addr request pushed) (10 ∷ 0 ∷ 0 ∷ 1 ∷ 51201 ∷ [])
    × Reads (print_dst_addr request pushed) (10 ∷ 0 ∷ 0 ∷ 2 ∷ 80 ∷ [])
unfolding get_type get_offset
print_addr-numbers_example =
    print_addr-numbers request pushed 0 request-IsBytes (omega arith) refl (inl refl) refl

print-Whole_example :
    Whole 32 (print_src_addr request pushed)
    × Whole 32 (print_dst_addr request pushed)
    × Whole 7 (print_sls_cic request pushed)
unfolding get_type
print-Whole_example = print-Whole request pushed (omega arith)
