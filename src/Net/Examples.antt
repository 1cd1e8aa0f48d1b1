-- ===== src/Net/Examples.antt =====
-- The header of a ping between two hosts of a local network, then zeros; and a request for the
-- address of the second of two interfaces.
use mikucos.Base.{
  map, ◌/◌, ◌⊎◌, ◌≢◌, ℕ, zero, suc, ◌<◌, Bool, true, ◌&&◌, ltb, ◌≡◌, refl, arith, List, [], ◌∷◌,
  get_or,
}
use mikucos.Net.{
  ArpFrame, IpInterface, Sent, arp_write, arp_answer, swap16, net16_to_cpu, arp_op_request,
  ip_sum_calc, ip_checksum, icmp_checksum, sum_loop, fold_carries,
}
use mikucos.Net.Reply.{NoneHas, Answered, arp_write-answers}
use mikucos.Net.Checksum.{Bytes, ip_checksum-verifies}

abbrev header : List ℕ
header =
    69 ∷ 0 ∷ 0 ∷ 84 ∷ 0 ∷ 0 ∷ 64 ∷ 0 ∷ 64 ∷ 1 ∷ 170 ∷ 187 ∷ 192 ∷ 168 ∷ 0 ∷ 1 ∷ 192 ∷ 168 ∷ 0 ∷ 16
    ∷ []

abbrev ping : ℕ → ℕ
ping j = get_or header j 0

all_bytes : List ℕ → Bool
all_bytes [] = true
all_bytes (x ∷ xs) = ltb x 256 && all_bytes xs

get_or-byte : (xs : List ℕ) (j : ℕ) → all_bytes xs ≡ true → get_or xs j 0 < 256
unfolding all_bytes
get_or-byte [] j h = omega arith
get_or-byte (x ∷ xs) zero h = ground arith
get_or-byte (x ∷ xs) (suc j) h = get_or-byte xs j (ground arith)

ping-Bytes : Bytes ping
unfolding all_bytes
ping-Bytes j = get_or-byte header j refl

ip_checksum-verifies_example :
    ((ip_sum_calc 20 (ip_checksum ping) ≡ 0) × (ip_sum_calc 136 (icmp_checksum ping) ≡ 0))
    × (Bytes (ip_checksum ping) × Bytes (icmp_checksum ping))
    × ((ip_checksum ping 12 ≡ 192) × (icmp_checksum ping 12 ≡ 192))
ip_checksum-verifies_example = ip_checksum-verifies ping 12 ping-Bytes (omega arith) (omega arith)

stored_sum : (ip_checksum ping 10 ≡ 185) × (ip_checksum ping 11 ≡ 71)
unfolding ip_checksum ip_sum_calc sum_loop fold_carries
stored_sum = (refl, refl)

abbrev interfaces : List IpInterface
interfaces =
    record { datalink = 4096; address = 167772161 }
    ∷ record { datalink = 8192; address = 268478656 }
    ∷ []

abbrev mac : ℕ → List ℕ
mac device = 0 ∷ 80 ∷ 86 ∷ 0 ∷ 0 ∷ device / 4096 ∷ []

abbrev request : ArpFrame
request = record {
  hard_type = 256;
  prot_type = 8;
  hard_size = 6;
  prot_size = 4;
  op = 256;
  sender_eth = 0 ∷ 80 ∷ 86 ∷ 192 ∷ 0 ∷ 8 ∷ [];
  sender_ip = 16820416;
  target_eth = 0 ∷ 0 ∷ 0 ∷ 0 ∷ 0 ∷ 0 ∷ [];
  target_ip = 268478656;
}

arp_write-answers_example :
    ((arp_write mac interfaces request 28).0 ≡ 28)
    × ((((arp_write mac interfaces request 28).1 ≡ [])
          × ((net16_to_cpu request.op ≢ arp_op_request) ⊎ NoneHas request.target_ip interfaces))
        ⊎ ((net16_to_cpu request.op ≡ arp_op_request)
            × Answered mac interfaces request (arp_write mac interfaces request 28).1))
arp_write-answers_example = arp_write-answers mac interfaces request 28

datalinks : map (λ (s : Sent). s.0) (arp_write mac interfaces request 28).1 ≡ 8192 ∷ []
unfolding arp_write arp_answer swap16
datalinks = refl
