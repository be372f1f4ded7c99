-- ===== src/Samplestore/Pcap.antt =====
-- The pcap files of src/samplestore.c: fileExists, writePcapHeader, writePcapRecord and writeToPcap,
-- which nothing calls now. Files are names with their bytes, and can be opened.
use mathlib.Core.List.{append-nil, append_assoc}
use sflow_toolkit.Base.{
  ℕ, ◌/◌, ◌%◌, ◌^◌, ◌≤◌, ◌≡◌, refl, sym, ◌∙◌, ap, Option, none, some, List, [], ◌∷◌, ◌++◌, Bool,
  inl, inr, Option-cases, le→ltb, All, true, false, ltb, if◌then◌else◌, length, take,
}
use sflow_toolkit.Base.Results.{
  Result, ok, fault, overread, ◌>>=◌, Returns, returns, Returns-eq, Returns-bind, Returns-weaken,
}
use sflow_toolkit.Bytes.{Bytes}
use sflow_toolkit.Util.{same}
use sflow_toolkit.Util.Texts.{same_refl}
use sflow_toolkit.Parser.Samples.{FlowSample}

abbrev pub PcapFiles : Type 0
PcapFiles = Bytes → Option Bytes

unfoldable pub file_exists : Bytes → PcapFiles → Bool
file_exists filename fs = elim (fs filename) [ none ↦ false | some text ↦ true ]

-- The numbers of a structure, as a little-endian host has them in memory.
abbrev pub put_u32 : ℕ → Bytes → Bytes
put_u32 v rest =
    (v % 2 ^ 8) ∷ (v / 2 ^ 8 % 2 ^ 8) ∷ (v / 2 ^ 16 % 2 ^ 8) ∷ (v / 2 ^ 24 % 2 ^ 8) ∷ rest

abbrev pub put_u16 : ℕ → Bytes → Bytes
put_u16 v rest = (v % 2 ^ 8) ∷ (v / 2 ^ 8 % 2 ^ 8) ∷ rest

-- `fopen(filename, "a")` and `fwrite`.
unfoldable pub append : Bytes → Bytes → PcapFiles → PcapFiles
append filename content fs name =
    if same name filename
    then elim (fs filename) [ none ↦ some content | some text ↦ some (text ++ content) ]
    else fs name

-- `pcap_hdr_t`: the magic number, the version, and `snaplen` and `network` behind two zeros.
unfoldable pub pcap_header : Bytes
pcap_header =
    put_u32 0xa1b2c3d4 (put_u16 2 (put_u16 4 (put_u32 0 (put_u32 0 (put_u32 128 (put_u32 1 []))))))

unfoldable pub write_pcap_header : Bytes → PcapFiles → PcapFiles
unfolding append pcap_header
write_pcap_header filename fs = append filename pcap_header fs

-- `pcaprec_hdr_t`, and the bytes behind it.
unfoldable pub pcap_record : ℕ → ℕ → ℕ → Bytes → Bytes
pcap_record ts_sec incl_len orig_len content =
    put_u32 ts_sec (put_u32 0 (put_u32 incl_len (put_u32 orig_len content)))

-- `now` is `time(NULL)`. `fwrite` reads `raw_header_length` bytes of the array.
unfoldable pub write_pcap_record : ℕ → Bytes → FlowSample → PcapFiles → Result PcapFiles
unfolding append pcap_record
write_pcap_record now filename s fs =
    if ltb (length s.raw_header) s.raw_header_length
    then fault overread
    else ok (
        append filename
          (pcap_record now s.raw_header_length s.raw_header_frame_length
            (take s.raw_header_length s.raw_header))
          fs)

unfoldable pub write_to_pcap : ℕ → Bytes → FlowSample → PcapFiles → Result PcapFiles
unfolding file_exists write_pcap_header write_pcap_record
write_to_pcap now filename s fs =
    if file_exists filename fs
    then write_pcap_record now filename s fs
    else write_pcap_record now filename s (write_pcap_header filename fs)

-- Samples of one second.
unfoldable write_each : ℕ → Bytes → List FlowSample → PcapFiles → Result PcapFiles
unfolding write_to_pcap
write_each now filename [] fs = ok fs
write_each now filename (s ∷ ss) fs = do
  fs' ← write_to_pcap now filename s fs
  write_each now filename ss fs'

-- The bytes of a sample in a file.
abbrev sample_record : ℕ → FlowSample → Bytes
sample_record now s =
    pcap_record now s.raw_header_length s.raw_header_frame_length
      (take s.raw_header_length s.raw_header)

abbrev records : ℕ → List FlowSample → Bytes
records now [] = []
records now (s ∷ ss) = sample_record now s ++ records now ss

-- The bytes of a file, behind the header of a new one.
abbrev started : Option Bytes → Bytes
started none = pcap_header
started (some text) = text

module _ (filename : Bytes) where
  append-here :
      (content : Bytes) (fs : PcapFiles) (text : Bytes)
      → fs filename ≡ some text
      → append filename content fs filename ≡ some (text ++ content)
  unfolding append
  append-here content fs text at = rw (same_refl filename, at) refl

  append-there :
      (content : Bytes) (fs : PcapFiles) (name : Bytes)
      → same name filename ≡ false
      → append filename content fs name ≡ fs name
  unfolding append
  append-there content fs name other = rw other refl

  write_pcap_header-new :
      (fs : PcapFiles)
      → fs filename ≡ none
      → write_pcap_header filename fs filename ≡ some pcap_header
  unfolding write_pcap_header append
  write_pcap_header-new fs missing = rw (same_refl filename, missing) refl

  abbrev Written : ℕ → List FlowSample → PcapFiles → PcapFiles → Type 0
  Written now ss fs fs' =
      (fs' filename ≡ some (started (fs filename) ++ records now ss))
      × ((name : Bytes) → same name filename ≡ false → fs' name ≡ fs name)

  IsReadable : FlowSample → Type 0
  IsReadable s = s.raw_header_length ≤ length s.raw_header

  write_pcap_record-append :
      (now : ℕ) (s : FlowSample) (fs : PcapFiles)
      → IsReadable s
      → write_pcap_record now filename s fs ≡ ok (append filename (sample_record now s) fs)
  unfolding write_pcap_record IsReadable
  write_pcap_record-append now s fs readable =
      rw (le→ltb (length s.raw_header) s.raw_header_length readable) refl

  appended :
      (now : ℕ) (s : FlowSample) (fs mid : PcapFiles)
      → mid filename ≡ some (started (fs filename))
      → ((name : Bytes) → same name filename ≡ false → mid name ≡ fs name)
      → Written now (s ∷ []) fs (append filename (sample_record now s) mid)
  appended now s fs mid at apart = (
    append-here (sample_record now s) mid (started (fs filename)) at
        ∙ ap (λ r. some (started (fs filename) ++ r)) (sym (append-nil (sample_record now s))),
    λ name other. append-there (sample_record now s) mid name other ∙ apart name other,
  )

  write_to_pcap-Written :
      (now : ℕ) (s : FlowSample) (fs : PcapFiles)
      → IsReadable s
      → Returns (Written now (s ∷ []) fs) (write_to_pcap now filename s fs)
  unfolding write_to_pcap file_exists
  write_to_pcap-Written now s fs readable = elim (Option-cases (fs filename)) [
    | inl missing ↦
        let mid = write_pcap_header filename fs in
        let run : write_to_pcap now filename s fs ≡ ok (append filename (sample_record now s) mid) =
          rw (missing, write_to_pcap, file_exists) (write_pcap_record-append now s mid readable) in
        Returns-eq run (
          (appended now s fs mid
            (write_pcap_header-new fs missing ∙ ap (λ t. some (started t)) (sym missing))
            (λ name other. append-there pcap_header fs name other)))
    | inr (text, at) ↦
        let run : write_to_pcap now filename s fs ≡ ok (append filename (sample_record now s) fs) =
          rw (at, write_to_pcap, file_exists) (write_pcap_record-append now s fs readable) in
        Returns-eq run
          ((appended now s fs fs (at ∙ ap (λ t. some (started t)) (sym at)) (λ name other. refl)))
  ]

  -- Samples whose headers have the lengths that they name are written one behind the other, to a
  -- file that is there or, behind the header of the format, to a new one; no other file changes.
  write_each-Written :
      (now : ℕ) (s : FlowSample) (ss : List FlowSample) (fs : PcapFiles)
      → IsReadable s
      → All IsReadable ss
      → Returns (Written now (s ∷ ss) fs) (write_each now filename (s ∷ ss) fs)
  unfolding write_each
  write_each-Written now s [] fs readable all =
      Returns-bind (write_to_pcap-Written now s fs readable) λ fs'. λ written. returns written
  write_each-Written now s (r ∷ ss) fs readable (next, all) =
      Returns-bind (write_to_pcap-Written now s fs readable) λ fs'. λ (first, kept).
        Returns-weaken (write_each-Written now r ss fs' next all) λ fs''. λ (rest, still).
          (rest ∙ ap some (longer fs' first), λ name other. still name other ∙ kept name other)
    where
      longer :
          (fs' : PcapFiles)
          → fs' filename ≡ some (started (fs filename) ++ records now (s ∷ []))
          → started (fs' filename) ++ records now (r ∷ ss)
            ≡ started (fs filename) ++ records now (s ∷ r ∷ ss)
      longer fs' first =
          ap (λ o. started o ++ records now (r ∷ ss)) first
          ∙ append_assoc (started (fs filename)) (records now (s ∷ [])) (records now (r ∷ ss))
          ∙ ap (λ t. started (fs filename) ++ (t ++ records now (r ∷ ss)))
              (append-nil (sample_record now s))
