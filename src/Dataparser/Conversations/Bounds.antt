-- ===== src/Dataparser/Conversations/Bounds.antt =====
-- The updates of conversations end without a fault on a sampled header of 128 bytes: their array
-- indices are in range, and their arrays keep their sizes.
use sflow_toolkit.Base.{
  ℕ, ◌<◌, ◌≡◌, refl, ◌∙◌, some, List, length, length-set, get_elem?, ◌==◌, arith, zero, suc, [],
  ◌∷◌,
}
use sflow_toolkit.Base.Results.{Returns, returns, Returns-bind, Returns-if}
use sflow_toolkit.Bytes.{Bytes}
use sflow_toolkit.Parser.Samples.{FlowSample}
use sflow_toolkit.Dataparser.Packet.{strip_vlan}
use sflow_toolkit.Dataparser.Packet.Bounds.{
  Head, Head-drop, IsAny, field8-Returns, ether_type-Returns, version-Returns, protocol-Returns,
  strip_ethernet-Returns, strip_ip-Returns,
}
use sflow_toolkit.Dataparser.Conversations.{
  ConvEthernet, ConvIp, ConvTcp, ConvUdp, EthernetProtocols, bump, add32, count_protocols,
  count_flags, conv_update_ethernet, conv_update_ip, conv_update_tcp, conv_update_udp,
}

abbrev pub IsSampled : FlowSample → Type 0
IsSampled s = Head 128 s.raw_header

pub record IsConvIp (c : ConvIp) : Type 0 where
  pub versions : length c.versions ≡ 16
  pub protocols : length c.protocols ≡ 256

pub record IsConvTcp (c : ConvTcp) : Type 0 where
  pub flags : length c.flags ≡ 6

get_elem?-some : (a : List ℕ) (i : ℕ) → i < length a → (v : ℕ) × (get_elem? a i ≡ some v)
get_elem?-some [] i h = absurd (omega arith)
get_elem?-some (x ∷ a) zero h = (x, refl)
get_elem?-some (x ∷ a) (suc i) h = get_elem?-some a i (omega arith)

bump-Returns :
    {m : ℕ} (a : List ℕ) (i n : ℕ) → length a ≡ m → i < m → Returns (λ b. length b ≡ m) (bump a i n)
unfolding bump
bump-Returns a i n size lt =
    let (v, e) = get_elem?-some a i (omega arith) in
    rw (e, bump) (returns (length-set a i (add32 v n) ∙ size))

pub count_protocols-Returns :
    (pkt : Bytes) (p : EthernetProtocols) → Head 128 pkt → Returns IsAny (count_protocols pkt p)
unfolding count_protocols
count_protocols-Returns pkt p h = Returns-bind (ether_type-Returns h (omega arith)) λ type _.
    Returns-if (type == 0x8100)
      (Returns-bind (ether_type-Returns (tagged h) (omega arith)) λ inner _. returns tt)
      (returns tt)
  where
    tagged : Head 128 pkt → Head 124 (strip_vlan pkt)
    tagged h = unfold strip_vlan in Head-drop {n = 128} 4 124 (omega arith) h

module _ (s : FlowSample) (h : IsSampled s) where
  pub conv_update_ethernet-Returns :
      (c : ConvEthernet) → Returns IsAny (conv_update_ethernet c s.raw_header s)
  unfolding conv_update_ethernet
  conv_update_ethernet-Returns c =
      Returns-bind (count_protocols-Returns s.raw_header c.protocols h) λ p _. returns tt

  pub conv_update_ip-Returns :
      (c : ConvIp) → IsConvIp c → Returns IsConvIp (conv_update_ip c s.raw_header s)
  unfolding conv_update_ip
  conv_update_ip-Returns c is =
      Returns-bind (strip_ethernet-Returns {n = 128} 110 (omega arith) h) λ hdr inside.
        Returns-bind (protocol-Returns inside (omega arith)) λ n byte.
          Returns-bind (bump-Returns c.protocols n 1 is.protocols byte) λ ps sized.
            Returns-bind (version-Returns inside (omega arith)) λ v small.
              Returns-bind (bump-Returns c.versions v 1 is.versions small)
                λ vs sized_vs. returns (record { versions = sized_vs; protocols = sized })

  pub conv_update_tcp-Returns :
      (c : ConvTcp) → IsConvTcp c → Returns IsConvTcp (conv_update_tcp c s.raw_header s)
  unfolding conv_update_tcp
  conv_update_tcp-Returns c is =
      Returns-bind (strip_ethernet-Returns {n = 128} 110 (omega arith) h) λ p inside.
        Returns-bind (strip_ip-Returns {n = 110} 50 (omega arith) inside) λ hdr inside'.
          Returns-bind (field8-Returns inside' 13 (omega arith)) λ b byte.
            Returns-bind (count_flags-Returns b c.flags is.flags)
              λ f sized. returns (record { flags = sized })
    where
      count_flags-Returns :
          (b : ℕ) (f : List ℕ) → length f ≡ 6 → Returns (λ g. length g ≡ 6) (count_flags b f)
      count_flags-Returns b f size =
          unfold count_flags in
          Returns-bind (bump-Returns f 0 _ size (omega arith)) λ f₀ s₀.
            Returns-bind (bump-Returns f₀ 1 _ s₀ (omega arith)) λ f₁ s₁.
              Returns-bind (bump-Returns f₁ 2 _ s₁ (omega arith)) λ f₂ s₂.
                Returns-bind (bump-Returns f₂ 3 _ s₂ (omega arith)) λ f₃ s₃.
                  Returns-bind (bump-Returns f₃ 4 _ s₃ (omega arith))
                    λ f₄ s₄. bump-Returns f₄ 5 _ s₄ (omega arith)

  pub conv_update_udp-Returns : (c : ConvUdp) → Returns IsAny (conv_update_udp c s.raw_header s)
  unfolding conv_update_udp
  conv_update_udp-Returns c = returns tt
