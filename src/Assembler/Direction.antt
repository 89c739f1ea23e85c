-- ===== src/Assembler/Direction.antt =====
-- Which packets share a flow key.
use sih.Prelude.{ℕ, ◌≡◌, ◌↔◌, String, Bool, true, false, ◌⊎◌, arith, ltb, ap}
use sih.Prelude.Text.{text_lt, sort_pair, text_lt_asym, text_lt_total}
use sih.Parsers.Packet.{Meta}
use sih.Assembler.{FlowKey, make_5tuple}

-- The same two values, in either order.
abbrev pub SamePair {ℓ} : {A : Type ℓ} → A → A → A → A → Type ℓ
SamePair a b c d = ((a ≡ c) × (b ≡ d)) ⊎ ((a ≡ d) × (b ≡ c))

module _ {A : Type 0} (lt : A → A → Bool) (asym : (a b : A) → lt a b ≡ true → lt b a ≡ false)
    (total : (a b : A) → lt a b ≡ false → lt b a ≡ false → a ≡ b) where
  sort_pair-eq_iff : (a b c d : A) → (sort_pair lt a b ≡ sort_pair lt c d) ↔ SamePair a b c d
  sort_pair-eq_iff a b c d = (λ e. ground arith, λ s. ground (arith, asym a b, asym b a, total a b))

ltb_asym : (a b : ℕ) → ltb a b ≡ true → ltb b a ≡ false
ltb_asym a b h = ground arith

ltb_total : (a b : ℕ) → ltb a b ≡ false → ltb b a ≡ false → a ≡ b
ltb_total a b h g = ground arith

-- Two packets of one protocol get the same key exactly when they have the same two addresses, in
-- either order, and the same two ports, in either order. The two orders are independent: a packet
-- and its reply share a key, and so do packets whose ports alone are exchanged.
pub make_5tuple-eq_iff :
    (m n : Meta) (p : String)
    → (make_5tuple m p ≡ make_5tuple n p) ↔ (
        SamePair m.src_ip m.dst_ip n.src_ip n.dst_ip
        × SamePair m.src_port m.dst_port n.src_port n.dst_port)
unfolding make_5tuple
make_5tuple-eq_iff m n p =
    let ips =
      sort_pair-eq_iff text_lt text_lt_asym text_lt_total m.src_ip m.dst_ip n.src_ip n.dst_ip in
    let ports =
      sort_pair-eq_iff ltb ltb_asym ltb_total m.src_port m.dst_port n.src_port n.dst_port in
    (
      λ e. (
        ips.0 (ap {B = String × String} (λ (k : FlowKey). (k.ip1, k.ip2)) e),
        ports.0 (ap {B = ℕ × ℕ} (λ (k : FlowKey). (k.port1, k.port2)) e),
      ),
      λ s.
          let a = ips.1 s.0 in
          let b = ports.1 s.1 in
          λ i. record {
            ip1 = (a i).0;
            port1 = (b i).0;
            ip2 = (a i).1;
            port2 = (b i).1;
            protocol = p;
          },
    )
