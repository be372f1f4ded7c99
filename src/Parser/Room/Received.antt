-- ===== src/Parser/Room/Received.antt =====
-- A whole datagram of src/sflowparser.c, with no more samples than the buffers have room for.
use sflow_toolkit.Base.{ℕ, ◌≡◌, ◌≢◌, refl, ◌==◌, inl, inr}
use sflow_toolkit.Base.Results.{Fault, Result, ok, fault, overrun, and_then}
use sflow_toolkit.Bytes.{Bytes, ntohl}
use sflow_toolkit.Agentlist.{agentlist_search}
use sflow_toolkit.Parser.Readers.{
  Datagram, Cmd, at, ◌>>=◌, get_data32_nobswap, peek_data32, Address, get_ip_v4, get_ip_v6,
  get_address, ip_v4,
}
use sflow_toolkit.Parser.Collect.{
  Collector, DatagramHeader, lift, collect_datagram, parse_datagram_header, agent_key, receive,
  start_datagram, parse_datagram,
}
use sflow_toolkit.Parser.Room.{
  Spared, Spares, Any, Spares-bind, Spares-pure, Spares-if, Spares-word, Spares-skip, Spared-load,
  Spares-copy_bytes, load32_cases,
}
use sflow_toolkit.Parser.Room.Samples.{HasRoom, Spares-search, Spares-collect_datagram}

Spares-get_data32_nobswap : Spares Any get_data32_nobswap
unfolding get_data32_nobswap
Spares-get_data32_nobswap = record { spares = λ d. Spared-load d.cursor λ p. (p.0, at d p.1) }

Spares-peek_data32 : Spares Any peek_data32
unfolding peek_data32
Spares-peek_data32 = record { spares = λ d. Spared-load d.cursor λ p. (ntohl p.0, d) }

Spares-get_address : Spares Any get_address
unfolding get_address get_ip_v4 get_ip_v6
Spares-get_address = Spares-word λ type.
    Spares-if (type == 1) (Spares-bind Spares-get_data32_nobswap λ v _. Spares-pure _ tt)
      (Spares-bind (Spares-copy_bytes 16) λ bytes _. Spares-skip 16 _ tt)

Spares-ip_v4 : (a : Address) → Spares Any (lift (ip_v4 a))
unfolding ip_v4
Spares-ip_v4 a = elim (load32_cases a.address) [
  | inl e ↦ record { spares = λ d. rw (e, and_then) tt }
  | inr (p, e) ↦ record { spares = λ d. rw (e, and_then) tt }
]

Spares-parse_datagram_header : Spares Any parse_datagram_header
unfolding parse_datagram_header
Spares-parse_datagram_header = Spares-word λ _. Spares-bind Spares-peek_data32 λ _ _.
    Spares-bind Spares-get_address λ a _. Spares-word λ _. Spares-word λ _.
      Spares-word λ _. Spares-word λ _. Spares-bind (Spares-ip_v4 a) λ s_addr _. Spares-pure _ tt

-- The continuation may go by how the run came out.
Spared-behind :
    {A B : Type 0} (r : Result (A × Datagram)) (f : A → Cmd B)
    → Spared Any r
    → ((a : A) (d : Datagram) → r ≡ ok (a, d) → Spared {A = B} Any (f a d))
    → Spared {A = B} Any (and_then r λ p. f p.0 p.1)
Spared-behind (ok (a, d)) f h k = k a d refl
Spared-behind (fault Fault.overrun) f h k = h
Spared-behind (fault other) f h k = tt

-- What stands behind the run of a whole datagram.
not_overrun :
    (r : Result (Collector × Datagram)) → Spared Any r → and_then r (λ p. ok p.0) ≢ fault overrun
not_overrun (ok (c, d)) h e = cc
not_overrun (fault Fault.overrun) h e = h
not_overrun (fault other) h e = cc

-- A datagram whose header announces no more samples than either buffer has room for writes behind
-- neither of them, whatever its bytes are.
pub parse_datagram-spares :
    (bytes : Bytes) (n now s_addr : ℕ) (c : Collector)
    → ((hdr : DatagramHeader) (d : Datagram)
        → parse_datagram_header (start_datagram bytes n now) ≡ ok (hdr, d)
        → HasRoom hdr.num_records c)
    → parse_datagram bytes n now s_addr c ≢ fault overrun
unfolding parse_datagram receive
parse_datagram-spares bytes n now s_addr c room =
    let d₀ = start_datagram bytes n now in
    not_overrun (receive now s_addr c d₀) (
      Spared-behind (parse_datagram_header d₀)
        (λ hdr. lift (agentlist_search c.agents (agent_key hdr.agent_address s_addr)) >>= λ agent.
          collect_datagram now hdr agent c)
        (Spares-parse_datagram_header.spares d₀)
        (λ hdr d e.
          (Spares-bind (Spares-search c.agents (agent_key hdr.agent_address s_addr))
              λ agent _. Spares-collect_datagram now hdr agent c (room hdr d e)).spares
            d))
