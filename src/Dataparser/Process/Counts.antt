-- ===== src/Dataparser/Process/Counts.antt =====
-- The frames and bytes of the Ethernet conversations after a file of flow samples.
use sflow_toolkit.Base.{
  ℕ, ◌+◌, ◌%◌, ◌^◌, ◌<◌, ◌≡◌, ◌≢◌, refl, Option, none, some, List, [], ◌∷◌, arith,
}
use sflow_toolkit.Base.Results.{ok, Returns-value}
use sflow_toolkit.Parser.Samples.{FlowSample}
use sflow_toolkit.Dataparser.Keys.{KeyEthernet}
use sflow_toolkit.Dataparser.Conversations.{
  ConvEthernet, conv_ethernet_zero, conv_update_ethernet, add32,
}
use sflow_toolkit.Dataparser.Conversations.Bounds.{IsSampled, count_protocols-Returns}
use sflow_toolkit.Dataparser.Table.Assoc.{or_else}
use sflow_toolkit.Dataparser.Table.Replay.{replay_step, value_or}
use sflow_toolkit.Dataparser.Process.{Tables, KeyEthernet-discrete, process_file_flow}
use sflow_toolkit.Dataparser.Process.Plan.{Plan}
use sflow_toolkit.Dataparser.Process.Replay.{upd_ethernet, find_ethernet}
use sflow_toolkit.Dataparser.Process.File.{
  AreSampled, Planned, replay_ethernet, process_file_flow-Replayed,
}

abbrev pub frames_of : Option ConvEthernet → ℕ
frames_of o = (or_else conv_ethernet_zero o).frames

abbrev pub bytes_of : Option ConvEthernet → ℕ
bytes_of o = (or_else conv_ethernet_zero o).bytes

-- The number of the samples with a key, and the sum of their frame lengths.
unfoldable pub sample_count : KeyEthernet → List (FlowSample × Plan) → ℕ
sample_count k [] = 0
sample_count k ((s, plan) ∷ ps) =
    let rest = sample_count k ps in
    elim (KeyEthernet-discrete k plan.ethernet) [ yes _ ↦ rest + 1 | no _ ↦ rest ]

unfoldable pub frame_bytes : KeyEthernet → List (FlowSample × Plan) → ℕ
frame_bytes k [] = 0
frame_bytes k ((s, plan) ∷ ps) =
    let rest = frame_bytes k ps in
    elim (KeyEthernet-discrete k plan.ethernet) [
      | yes _ ↦ rest + s.raw_header_frame_length
      | no _ ↦ rest
    ]

abbrev ArePlanned : List (FlowSample × Plan) → Type 0
ArePlanned [] = Unit {0}
ArePlanned ((s, plan) ∷ ps) = IsSampled s × ArePlanned ps

Planned-ArePlanned :
    (ss : List (ℕ × FlowSample)) (ps : List (FlowSample × Plan))
    → AreSampled ss
    → Planned ss ps
    → ArePlanned ps
Planned-ArePlanned [] [] h p = tt
Planned-ArePlanned [] (q ∷ ps) h p = absurd p
Planned-ArePlanned (s ∷ ss) [] h p = absurd p
Planned-ArePlanned ((behind, s) ∷ ss) ((s', plan) ∷ ps) (h, hs) (e, _, more) =
    (rw e h, Planned-ArePlanned ss ps hs more)

-- The update counts the frame and its bytes.
counted :
    (s : FlowSample) (c : ConvEthernet)
    → IsSampled s
    → ((value_or conv_ethernet_zero (upd_ethernet s c)).frames ≡ add32 c.frames 1)
      × ((value_or conv_ethernet_zero (upd_ethernet s c)).bytes
          ≡ add32 c.bytes s.raw_header_frame_length)
unfolding conv_update_ethernet value_or
counted s c h =
    let (p, e, _) = Returns-value (count_protocols-Returns s.raw_header c.protocols h) in
    (rw e refl, rw e refl)

module _ {A : Type 0} (k e : KeyEthernet) (a b : A) where
  abbrev choice : Dec (k ≡ e) → A
  choice d = elim d as (λ _. A) [ yes _ ↦ a | no _ ↦ b ]

  choice-yes : (d : Dec (k ≡ e)) → k ≡ e → choice d ≡ a
  choice-yes (yes p) h = refl
  choice-yes (no p) h = absurd (p h)

  choice-no : (d : Dec (k ≡ e)) → k ≢ e → choice d ≡ b
  choice-no (yes p) h = absurd (h p)
  choice-no (no p) h = refl

module _ (k : KeyEthernet) where
  abbrev Counted : List (FlowSample × Plan) → Option ConvEthernet → Type 0
  Counted ps o =
      (frames_of (replay_ethernet k ps o) ≡ (frames_of o + sample_count k ps) % 2 ^ 32)
      × (bytes_of (replay_ethernet k ps o) ≡ (bytes_of o + frame_bytes k ps) % 2 ^ 32)

  module _ (s : FlowSample) (plan : Plan) (ps : List (FlowSample × Plan))
      (o : Option ConvEthernet) where
    Counted-other : k ≢ plan.ethernet → Counted ps o → Counted ((s, plan) ∷ ps) o
    unfolding sample_count frame_bytes replay_step
    Counted-other ne h =
        let d = KeyEthernet-discrete k plan.ethernet in
        rw
          (choice-no k plan.ethernet
            (some (value_or conv_ethernet_zero (upd_ethernet s (or_else conv_ethernet_zero o)))) o d
            ne)
          (rw (choice-no k plan.ethernet (sample_count k ps + 1) (sample_count k ps) d ne) (
            rw
              (choice-no k plan.ethernet (frame_bytes k ps + s.raw_header_frame_length)
                (frame_bytes k ps) d ne)
              h))

    Counted-same :
        k ≡ plan.ethernet
        → IsSampled s
        → Counted ps
            (some (value_or conv_ethernet_zero (upd_ethernet s (or_else conv_ethernet_zero o))))
        → Counted ((s, plan) ∷ ps) o
    unfolding sample_count frame_bytes replay_step
    Counted-same e is h =
        let d = KeyEthernet-discrete k plan.ethernet in
        let (one, size) = counted s (or_else conv_ethernet_zero o) is in
        rw
          (choice-yes k plan.ethernet
            (some (value_or conv_ethernet_zero (upd_ethernet s (or_else conv_ethernet_zero o)))) o d
            e)
          (rw (choice-yes k plan.ethernet (sample_count k ps + 1) (sample_count k ps) d e) (
            rw
              (choice-yes k plan.ethernet (frame_bytes k ps + s.raw_header_frame_length)
                (frame_bytes k ps) d e)
              (omega (arith, h.0, h.1, one, size))))

  replay-Counted :
      (ps : List (FlowSample × Plan)) (o : Option ConvEthernet)
      → ArePlanned ps
      → frames_of o < 2 ^ 32
      → bytes_of o < 2 ^ 32
      → Counted ps o
  unfolding sample_count frame_bytes
  replay-Counted [] o h small_frames small_bytes = omega arith
  replay-Counted ((s, plan) ∷ ps) o (h, hs) small_frames small_bytes =
      elim (KeyEthernet-discrete k plan.ethernet) [
        | yes e ↦
            let (one, size) = counted s (or_else conv_ethernet_zero o) h in
            Counted-same s plan ps o e h (
              replay-Counted ps
                (some (value_or conv_ethernet_zero (upd_ethernet s (or_else conv_ethernet_zero o))))
                hs (omega (arith, one)) (omega (arith, size)))
        | no ne ↦ Counted-other s plan ps o ne (replay-Counted ps o hs small_frames small_bytes)
      ]

-- A file of samples with headers of at least 128 bytes is processed without a fault, and
-- afterwards the Ethernet conversation of a key has as many frames as samples of the file have
-- that key, and as many bytes as their frame lengths add up to, both modulo 2^32.
pub process_file_flow-counts :
    (ss : List (ℕ × FlowSample))
    → AreSampled ss
    → (t : Tables) × (ps : List (FlowSample × Plan)) × (process_file_flow (some ss) ≡ ok t)
      × Planned ss ps
      × ((k : KeyEthernet)
          → (frames_of (find_ethernet t k) ≡ sample_count k ps % 2 ^ 32)
            × (bytes_of (find_ethernet t k) ≡ frame_bytes k ps % 2 ^ 32))
process_file_flow-counts ss h =
    let (t, ps, done, planned, found, _, _, _) = process_file_flow-Replayed ss h in
    (
      t,
      ps,
      done,
      planned,
      λ k.
          let (frames, bytes) =
            replay-Counted k ps none (Planned-ArePlanned ss ps h planned) (omega arith)
              (omega arith) in
          rw (found k) (omega (arith, frames, bytes)),
    )
