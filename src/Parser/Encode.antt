-- ===== src/Parser/Encode.antt =====
-- The sFlow version 5 format that src/sflow.h describes, written as encoders: what an agent sends
-- for counter and flow samples. Every encoder writes in front of the bytes that follow.
pub mod Samples
use sflow_toolkit.Base.{
  ℕ, ◌+◌, ◌-◌, ◌*◌, ◌%◌, ◌^◌, ◌≤◌, ◌<◌, ◌≢◌, Bool, true, false, List, [], ◌∷◌, ◌++◌, length,
  replicate, All,
}
use sflow_toolkit.Bytes.{Bytes, IsU32, IsU64, put32, put64}
use sflow_toolkit.Parser.Samples.{GenericCounters, EthernetCounters}
use sflow_toolkit.Parser.Counters.{counters_generic, counters_ethernet}

unfoldable pub put_generic : GenericCounters → Bytes → Bytes
put_generic g rest = put32 g.if_index (
    put32 g.if_type (
      put64 g.if_speed (
        put32 g.if_direction (
          put32 g.if_status (
            put64 g.in_octets (
              put32 g.in_ucast_pkts (
                put32 g.in_mcast_pkts (
                  put32 g.in_bcast_pkts (
                    put32 g.in_discards (
                      put32 g.in_errors (
                        put32 g.in_unknown_proto (
                          put64 g.out_octets (
                            put32 g.out_ucast_pkts (
                              put32 g.out_mcast_pkts (
                                put32 g.out_bcast_pkts (
                                  put32 g.out_discards
                                    (put32 g.out_errors (put32 g.promisc rest))))))))))))))))))

unfoldable pub put_ethernet : EthernetCounters → Bytes → Bytes
put_ethernet e rest = put32 e.alignment_errors (
    put32 e.fcs_errors (
      put32 e.single_collision_frames (
        put32 e.multiple_collision_frames (
          put32 e.sqe_test_errors (
            put32 e.deferred_transmissions (
              put32 e.late_collisions (
                put32 e.excessive_collisions (
                  put32 e.internal_mac_transmit_errors (
                    put32 e.carrier_sense_errors (
                      put32 e.frame_too_longs
                        (put32 e.internal_mac_receive_errors (put32 e.symbol_errors rest))))))))))))

-- The values fit the widths of the struct.
pub record IsGeneric (g : GenericCounters) : Type 0 where
  pub if_index : IsU32 g.if_index
  pub if_type : IsU32 g.if_type
  pub if_speed : IsU64 g.if_speed
  pub if_direction : IsU32 g.if_direction
  pub if_status : IsU32 g.if_status
  pub in_octets : IsU64 g.in_octets
  pub in_ucast_pkts : IsU32 g.in_ucast_pkts
  pub in_mcast_pkts : IsU32 g.in_mcast_pkts
  pub in_bcast_pkts : IsU32 g.in_bcast_pkts
  pub in_discards : IsU32 g.in_discards
  pub in_errors : IsU32 g.in_errors
  pub in_unknown_proto : IsU32 g.in_unknown_proto
  pub out_octets : IsU64 g.out_octets
  pub out_ucast_pkts : IsU32 g.out_ucast_pkts
  pub out_mcast_pkts : IsU32 g.out_mcast_pkts
  pub out_bcast_pkts : IsU32 g.out_bcast_pkts
  pub out_discards : IsU32 g.out_discards
  pub out_errors : IsU32 g.out_errors
  pub promisc : IsU32 g.promisc

pub record IsEthernet (e : EthernetCounters) : Type 0 where
  pub alignment_errors : IsU32 e.alignment_errors
  pub fcs_errors : IsU32 e.fcs_errors
  pub single_collision_frames : IsU32 e.single_collision_frames
  pub multiple_collision_frames : IsU32 e.multiple_collision_frames
  pub sqe_test_errors : IsU32 e.sqe_test_errors
  pub deferred_transmissions : IsU32 e.deferred_transmissions
  pub late_collisions : IsU32 e.late_collisions
  pub excessive_collisions : IsU32 e.excessive_collisions
  pub internal_mac_transmit_errors : IsU32 e.internal_mac_transmit_errors
  pub carrier_sense_errors : IsU32 e.carrier_sense_errors
  pub frame_too_longs : IsU32 e.frame_too_longs
  pub internal_mac_receive_errors : IsU32 e.internal_mac_receive_errors
  pub symbol_errors : IsU32 e.symbol_errors

-- Opaque bytes are padded to a multiple of four.
unfoldable pub put_opaque : Bytes → Bytes → Bytes
put_opaque body rest = (body ++ replicate ((4 - length body % 4) % 4) 0) ++ rest

-- A record of a counter sample: the two kinds that the collector knows, and any other.
pub data CounterRecord : Type 0 where
  generic : GenericCounters → CounterRecord
  ethernet : EthernetCounters → CounterRecord
  other : ℕ → Bytes → CounterRecord

unfoldable pub put_counter_record : CounterRecord → Bytes → Bytes
unfolding put_opaque
put_counter_record (generic g) rest = put32 counters_generic (put32 88 (put_generic g rest))
put_counter_record (ethernet e) rest = put32 counters_ethernet (put32 52 (put_ethernet e rest))
put_counter_record (other tag body) rest = put32 tag (put32 (length body) (put_opaque body rest))

unfoldable pub put_counter_records : List CounterRecord → Bytes → Bytes
put_counter_records [] rest = rest
put_counter_records (r ∷ rs) rest = put_counter_record r (put_counter_records rs rest)

abbrev pub IsCounterRecord : CounterRecord → Type 0
IsCounterRecord (generic g) = IsGeneric g
IsCounterRecord (ethernet e) = IsEthernet e
IsCounterRecord (other tag body) =
    IsU32 tag × (tag ≢ counters_generic) × (tag ≢ counters_ethernet) × (length body + 3 < 2 ^ 32)
