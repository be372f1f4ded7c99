-- ===== src/Parser/Bounds/Received.antt =====
-- The least number of bytes that a whole datagram takes, and so how often the loop over its samples
-- can run.
use sflow_toolkit.Base.{
  ℕ, ltb, ◌⊎◌, inl, inr, Bool-cases, true, false, length-drop, ◌+◌, ◌*◌, ◌≤◌, ◌≡◌, refl, Option,
  some, none, length, arith, ◌==◌,
}
use sflow_toolkit.Base.Results.{Result, ok, fault, and_then, >>=-eq_ok}
use sflow_toolkit.Bytes.{Bytes, ntohl}
use mathlib.Core.Path.{subst}
use sflow_toolkit.Base.Heap.{deref}
use sflow_toolkit.Agentlist.{agentlist_search}
use sflow_toolkit.Parser.Readers.{
  Datagram, copy_bytes, skip_bytes, peek_data32, load32, get_address, get_ip_v4, get_ip_v6,
  get_data32_nobswap, ip_v4,
}
use sflow_toolkit.Parser.Collect.{
  Collector, DatagramHeader, parse_datagram_header, collect_datagram, receive, start_datagram,
  parse_datagram, lift, agent_key,
}
use sflow_toolkit.Parser.Bounds.Samples.{Takes-parse_samples}
use sflow_toolkit.Parser.Bounds.{
  Took, Takes, Takes-bind, Takes-pure, Takes-less, Takes-if, Takes-word, Took-load32,
}

Took-peek :
    (g : ℕ → ℕ) (d : Datagram) (r : Result (ℕ × Bytes)) → Took 0 d (and_then r λ p. ok (g p.0, d))
Took-peek g d (ok p) = omega arith
Took-peek g d (fault e) = tt

Takes-peek_data32 : Takes 0 peek_data32
unfolding peek_data32
Takes-peek_data32 = record { took = λ d. Took-peek ntohl d (load32 d.cursor) }

Takes-get_data32_nobswap : Takes 4 get_data32_nobswap
unfolding get_data32_nobswap
Takes-get_data32_nobswap = record { took = λ d. Took-load32 (λ v. v) d d.cursor refl }

Takes-lift : {A : Type 0} (r : Result A) → Takes 0 (lift r)
Takes-lift (ok a) = record { took = λ d. omega arith }
Takes-lift (fault e) = record { took = λ d. tt }

Took-v6 :
    (type : ℕ) (d : Datagram)
    → (ltb (length d.cursor) 16 ≡ true) ⊎ (ltb (length d.cursor) 16 ≡ false)
    → Took 4 d (get_ip_v6 type d)
unfolding get_ip_v6 copy_bytes skip_bytes
Took-v6 type d (inl e) = rw e tt
Took-v6 type d (inr e) =
    let there : 16 ≤ length d.cursor = ground (arith, e) in
    rw e (omega (arith, length-drop 16 d.cursor))

Takes-get_address : Takes 8 get_address
unfolding get_address
Takes-get_address = Takes-word λ type. Takes-if (type == 1) (Takes-v4 type) (Takes-v6 type)
  where
    Takes-v4 : (type : ℕ) → Takes 4 (get_ip_v4 type)
    Takes-v4 type = Takes-bind {m = 0} Takes-get_data32_nobswap λ v. Takes-pure _

    Takes-v6 : (type : ℕ) → Takes 4 (get_ip_v6 type)
    Takes-v6 type = record { took = λ d. Took-v6 type d (Bool-cases (ltb (length d.cursor) 16)) }

Takes-parse_datagram_header : Takes 28 parse_datagram_header
unfolding parse_datagram_header
Takes-parse_datagram_header = Takes-word λ _. Takes-bind Takes-peek_data32 λ _.
    Takes-bind Takes-get_address λ address. Takes-word λ _.
      Takes-word λ _.
        Takes-word λ _. Takes-word λ _. Takes-bind (Takes-lift (ip_v4 address)) λ _. Takes-pure _

Takes-collect_datagram :
    (now : ℕ) (hdr : DatagramHeader) (a : Option ℕ) (c : Collector)
    → Takes (8 * hdr.num_records) (collect_datagram now hdr a c)
unfolding collect_datagram
Takes-collect_datagram now hdr none c = record { took = λ d. tt }
Takes-collect_datagram now hdr (some p) c =
    Takes-less (8 * hdr.num_records) (0 + 8 * hdr.num_records) (omega arith) (
      Takes-bind {n = 0} (Takes-lift (deref c.agents.agents p))
        λ agent. Takes-parse_samples hdr.num_records _ _)

Took-ok :
    {A : Type 0} (n : ℕ) (d : Datagram) (r : Result (A × Datagram)) (a : A) (d' : Datagram)
    → r ≡ ok (a, d')
    → Took n d r
    → length d'.cursor + n ≤ length d.cursor
Took-ok n d r a d' e h = subst (Took n d) e h

-- Whatever was received: if `parse_datagram` ends without a fault, it has read the header inside
-- the receive buffer, and the header has at least 28 bytes, and behind it, where the loop
-- over the samples starts, there are at least eight bytes for each sample that the header announces. So the loop over samples runs at most once for every eight bytes of the buffer.
pub parse_datagram_bounded :
    (bytes : Bytes) (n now s_addr : ℕ) (c c' : Collector)
    → parse_datagram bytes n now s_addr c ≡ ok c'
    → (hdr : DatagramHeader) × (d : Datagram) × (parse_datagram_header (start_datagram bytes n now)
        ≡ ok (hdr, d))
      × (length d.cursor + 28 ≤ length bytes)
      × (8 * hdr.num_records ≤ length d.cursor)
unfolding parse_datagram receive start_datagram
parse_datagram_bounded bytes n now s_addr c c' e =
    let ((_, d₃), received, _) =
      >>=-eq_ok (receive now s_addr c (start_datagram bytes n now)) (λ p. ok p.0) e in
    let ((hdr, d), header, e₁) =
      >>=-eq_ok (parse_datagram_header (start_datagram bytes n now)) _ received in
    let behind =
      Takes-bind {n = 0}
        (Takes-lift (agentlist_search c.agents (agent_key hdr.agent_address s_addr)))
        (λ a. Takes-collect_datagram now hdr a c) in
    (
      hdr,
      d,
      header,
      Took-ok 28 (start_datagram bytes n now) _ hdr d header (Takes-parse_datagram_header.took _),
      omega (arith, Took-ok (0 + 8 * hdr.num_records) d _ _ d₃ e₁ (behind.took d)),
    )
