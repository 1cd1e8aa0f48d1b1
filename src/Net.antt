-- ===== src/Net.antt =====
-- net/checksum.c, byteorder.h and net/arp.c: the checksum of a frame, the byte order of the network,
-- and the answer to a request for an address.
-- For the checksum a frame is the memory from its first byte on. The loop over the words counts in
-- 16 bits; it ends for lengths below 2^17, which the two callers stay under. The interfaces are the
-- list that the ring of net/ip.c links.
pub mod Checksum
pub mod Reply
pub mod Examples
use mikucos.Base.{
  List, [], ◌∷◌, ℕ, zero, suc, ◌+◌, ◌-◌, ◌*◌, ◌/◌, ◌%◌, ◌^◌, Bool, true, false, ◌==◌, if◌then◌else◌,
}

-- `buff[i]`, of 16 bits in the order of the processor.
abbrev pub halfword : (ℕ → ℕ) → ℕ → ℕ
halfword buff i = buff (2 * i) + 256 * buff (2 * i + 1)

-- The `for` loop: `n` words from `i` on are added to `sum`, of 32 bits.
pub sum_loop : ℕ → ℕ → ℕ → (ℕ → ℕ) → ℕ
sum_loop zero i sum buff = sum
sum_loop (suc n) i sum buff = sum_loop n (i + 1) ((sum + halfword buff i) % 2 ^ 32) buff

-- The `while` loop, with a count of its rounds.
pub fold_carries : ℕ → ℕ → ℕ
fold_carries zero sum = sum
fold_carries (suc rounds) sum =
    let rest = fold_carries rounds (sum % 65536 + sum / 65536) in
    if sum / 65536 == 0 then sum else rest

-- Two rounds are enough for 32 bits.
pub ip_sum_calc : ℕ → (ℕ → ℕ) → ℕ
ip_sum_calc len_ip_header buff =
    65535 - fold_carries 2 (sum_loop (len_ip_header / 2) 0 0 buff) % 65536

-- The field `check`, at the offset 10 of a frame.
abbrev pub set_check : ℕ → (ℕ → ℕ) → ℕ → ℕ
set_check check frame j =
    if j == 10 then check % 256 else if j == 11 then check / 256 % 256 else frame j

pub ip_checksum : (ℕ → ℕ) → ℕ → ℕ
ip_checksum frame = let frame' = set_check 0 frame in set_check (ip_sum_calc 20 frame') frame'

pub icmp_checksum : (ℕ → ℕ) → ℕ → ℕ
icmp_checksum frame =
    let frame' = set_check 0 frame in set_check (ip_sum_calc (8 + 128) frame') frame'

pub swap16 : ℕ → ℕ
swap16 val = val % 256 * 256 + val / 256 % 256

abbrev pub cpu_to_net16 : ℕ → ℕ
cpu_to_net16 val = swap16 val

abbrev pub net16_to_cpu : ℕ → ℕ
net16_to_cpu val = swap16 val

abbrev pub arp_op_request : ℕ
arp_op_request = 1

abbrev pub arp_op_reply : ℕ
arp_op_reply = 2

-- 0x0800 and 0x0806.
abbrev pub ether_t_ip : ℕ
ether_t_ip = 2048

abbrev pub ether_t_arp : ℕ
ether_t_arp = 2054

-- An address of the hardware is the list of its 6 bytes.
pub record EthernetFrame : Type 0 where
  pub dst : List ℕ
  pub src : List ℕ
  pub ether_type : ℕ

pub record ArpFrame : Type 0 where
  pub hard_type : ℕ
  pub prot_type : ℕ
  pub hard_size : ℕ
  pub prot_size : ℕ
  pub op : ℕ
  pub sender_eth : List ℕ
  pub sender_ip : ℕ
  pub target_eth : List ℕ
  pub target_ip : ℕ

pub record IpInterface : Type 0 where
  pub datalink : ℕ
  pub address : ℕ

pub make_eth_arp : ℕ → ℕ → List ℕ → ℕ → List ℕ → EthernetFrame × ArpFrame
make_eth_arp code src_ip src_mac dst_ip dst_mac = (
  record { dst = dst_mac; src = src_mac; ether_type = cpu_to_net16 ether_t_arp },
  record {
    hard_type = cpu_to_net16 1;
    prot_type = cpu_to_net16 ether_t_ip;
    hard_size = 6;
    prot_size = 4;
    op = cpu_to_net16 code;
    sender_eth = src_mac;
    sender_ip = src_ip;
    target_eth = dst_mac;
    target_ip = dst_ip;
  },
)

-- A frame written to a datalink device.
abbrev pub Sent : Type 0
Sent = ℕ × (EthernetFrame × ArpFrame)

-- `mac` is the option "mac" of a datalink device; the loop over the interfaces, in their order.
pub arp_answer : (ℕ → List ℕ) → List IpInterface → ArpFrame → List Sent
arp_answer mac [] frame = []
arp_answer mac (i ∷ is) frame =
    let rest = arp_answer mac is frame in
    if frame.target_ip == i.address
    then (
      i.datalink,
      make_eth_arp arp_op_reply i.address (mac i.datalink) frame.sender_ip frame.sender_eth,
    )
      ∷ []
    else rest

-- The length that is returned, and the frames written. The messages, also the one on a short
-- packet, are left out; a reply and an unknown operation have nothing else.
pub arp_write : (ℕ → List ℕ) → List IpInterface → ArpFrame → ℕ → ℕ × List Sent
arp_write mac interfaces frame len =
    (len, if net16_to_cpu frame.op == arp_op_request then arp_answer mac interfaces frame else [])
