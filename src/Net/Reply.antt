-- ===== src/Net/Reply.antt =====
-- Who answers a request of net/arp.c, and what the answer says.
use mikucos.Base.{
  ℕ, ◌<◌, ◌≡◌, ◌≢◌, ◌⊎◌, inl, inr, refl, sym, ap, true, false, ◌==◌, List, [], ◌∷◌, ◌++◌, arith,
}
use mikucos.Net.{
  ArpFrame, EthernetFrame, IpInterface, Sent, arp_answer, arp_write, make_eth_arp, swap16,
  net16_to_cpu, arp_op_reply, arp_op_request, ether_t_arp,
}

pub swap16-swap16 : (val : ℕ) → val < 65536 → swap16 (swap16 val) ≡ val
unfolding swap16
swap16-swap16 val h = omega arith

unfoldable pub NoneHas : ℕ → List IpInterface → Type 0
NoneHas ip [] = Unit
NoneHas ip (i ∷ is) = (ip ≢ i.address) × NoneHas ip is

-- A reply to `frame`, from the address that it asks for at the hardware address `mac`.
pub record IsReply (mac : List ℕ) (frame : ArpFrame) (eth : EthernetFrame) (arp : ArpFrame)
    : Type 0 where
  pub is_arp : net16_to_cpu eth.ether_type ≡ ether_t_arp
  pub is_reply : net16_to_cpu arp.op ≡ arp_op_reply
  pub to_asker : eth.dst ≡ frame.sender_eth
  pub from_interface : eth.src ≡ mac
  pub sender : (arp.sender_eth ≡ mac) × (arp.sender_ip ≡ frame.target_ip)
  pub target : (arp.target_eth ≡ frame.sender_eth) × (arp.target_ip ≡ frame.sender_ip)

-- The first interface with the address asked for.
pub record Answered (mac : ℕ → List ℕ) (is : List IpInterface) (frame : ArpFrame) (out : List Sent)
    : Type 0 where
  pub before : List IpInterface
  pub it : IpInterface
  pub after : List IpInterface
  pub eth : EthernetFrame
  pub arp : ArpFrame
  pub in_order : is ≡ before ++ it ∷ after
  pub first : NoneHas frame.target_ip before
  pub asked : frame.target_ip ≡ it.address
  pub reply : IsReply (mac it.datalink) frame eth arp
  pub sent : out ≡ (it.datalink, (eth, arp)) ∷ []

arp_answer-cases :
    (mac : ℕ → List ℕ) (is : List IpInterface) (frame : ArpFrame)
    → ((arp_answer mac is frame ≡ []) × NoneHas frame.target_ip is)
      ⊎ Answered mac is frame (arp_answer mac is frame)
unfolding arp_answer NoneHas make_eth_arp
arp_answer-cases mac [] frame = inl (refl, tt)
arp_answer-cases mac (i ∷ is) frame =
    let cases : (frame.target_ip ≡ i.address) ⊎ (frame.target_ip ≢ i.address) = omega arith in
    elim cases [
      | inl e ↦
          let eq : (frame.target_ip == i.address) ≡ true = ground arith in
          inr (record {
            before = [];
            it = i;
            after = is;
            eth =
                (make_eth_arp arp_op_reply i.address (mac i.datalink) frame.sender_ip
                  frame.sender_eth).0;
            arp =
                (make_eth_arp arp_op_reply i.address (mac i.datalink) frame.sender_ip
                  frame.sender_eth).1;
            in_order = refl;
            first = tt;
            asked = e;
            reply = record {
              is_arp = swap16-swap16 ether_t_arp (omega arith);
              is_reply = swap16-swap16 arp_op_reply (omega arith);
              to_asker = refl;
              from_interface = refl;
              sender = (refl, sym e);
              target = (refl, refl);
            };
            sent = rw eq refl;
          })
      | inr d ↦
          let ne : (frame.target_ip == i.address) ≡ false = ground arith in
          rw ne (elim (arp_answer-cases mac is frame) [
            | inl (e, n) ↦ inl (e, (d, n))
            | inr a ↦ inr (record {
              before = i ∷ a.before;
              it = a.it;
              after = a.after;
              eth = a.eth;
              arp = a.arp;
              in_order = ap (◌∷◌ i) a.in_order;
              first = (d, a.first);
              asked = a.asked;
              reply = a.reply;
              sent = a.sent;
            })
          ])
    ]

-- `arp_write` returns the length. On a request it writes one frame, an ARP reply from the address
-- asked for to the sender of the request, to the first interface that has this address; and it
-- writes none when no interface has it, or on another operation.
pub arp_write-answers :
    (mac : ℕ → List ℕ) (is : List IpInterface) (frame : ArpFrame) (len : ℕ)
    → ((arp_write mac is frame len).0 ≡ len)
      × ((((arp_write mac is frame len).1 ≡ [])
            × ((net16_to_cpu frame.op ≢ arp_op_request) ⊎ NoneHas frame.target_ip is))
          ⊎ ((net16_to_cpu frame.op ≡ arp_op_request)
              × Answered mac is frame (arp_write mac is frame len).1))
unfolding arp_write
arp_write-answers mac is frame len =
    let cases : (net16_to_cpu frame.op ≡ 1) ⊎ (net16_to_cpu frame.op ≢ 1) = omega arith in
    elim cases [
      | inl e ↦
          let eq : (net16_to_cpu frame.op == 1) ≡ true = ground arith in
          (
            refl,
            rw eq (elim (arp_answer-cases mac is frame) [
              | inl (r, n) ↦ inl (r, inr n)
              | inr a ↦ inr (e, a)
            ]),
          )
      | inr d ↦
          let ne : (net16_to_cpu frame.op == 1) ≡ false = ground arith in
          (refl, rw ne (inl (refl, inl d)))
    ]
