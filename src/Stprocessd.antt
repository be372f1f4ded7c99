-- ===== src/Stprocessd.antt =====
-- process_file of src/stprocessd.c, with what process_file_flow and process_file_cntr of
-- src/dataparser.c do around the samples: the file is read and unlinked, and the storage modules
-- get what it left.
pub mod Serve
pub mod Stored
use sflow_toolkit.Base.{ℕ, Option, none, some, List, [], ◌∷◌, ◌==◌, Bool, if◌then◌else◌}
use sflow_toolkit.Base.Results.{Result, ok, ◌>>=◌}
use sflow_toolkit.Bytes.{Bytes}
use sflow_toolkit.Util.{same, c_string}
use sflow_toolkit.Parser.Samples.{FlowSample, CntrSample}
use sflow_toolkit.Dataparser.Keys.{hash_range}
use sflow_toolkit.Dataparser.Process.{Tables, process_file_flow, process_file_cntr}
use sflow_toolkit.Messaging.{Msg, parse_message, recv_msg}
use sflow_toolkit.Storage.{
  ModuleList, storage_modules_store_cntr, storage_modules_store_conv_ethernet,
  storage_modules_store_conv_ip, storage_modules_store_conv_tcp, storage_modules_store_conv_udp,
}

-- The files by their names, as records of the one or the other kind; each flow sample comes with the
-- bytes behind the IP key while it is processed.
pub record SampleFiles : Type 0 where
  pub flow : Bytes → Option (List (ℕ × FlowSample))
  pub cntr : Bytes → Option (List CntrSample)

-- The files, and what the storage modules work on.
pub record Processing (W : Type 0) : Type 0 where
  pub files : SampleFiles
  pub world : W

-- `shm_unlink`
unfoldable pub shm_unlink : Bytes → SampleFiles → SampleFiles
shm_unlink name fs = record {
  flow = λ other. if same other name then none else fs.flow other;
  cntr = λ other. if same other name then none else fs.cntr other;
}

module _ {W : Type 0} (modules : ModuleList W) where
  -- The four calls behind the loop over the samples.
  unfoldable pub store_tables : Tables → ℕ → ℕ → W → Result W
  unfolding storage_modules_store_conv_ethernet storage_modules_store_conv_ip
      storage_modules_store_conv_tcp storage_modules_store_conv_udp
  store_tables t agent timestamp w = do
    w₁ ← storage_modules_store_conv_ethernet modules t.ethernet hash_range agent timestamp w
    w₂ ← storage_modules_store_conv_ip modules t.ip hash_range agent timestamp w₁
    w₃ ← storage_modules_store_conv_tcp modules t.tcp hash_range agent timestamp w₂
    storage_modules_store_conv_udp modules t.udp hash_range agent timestamp w₃

  unfoldable pub store_file_flow : Bytes → ℕ → ℕ → Processing W → Result (Processing W)
  unfolding process_file_flow store_tables shm_unlink
  store_file_flow name agent timestamp p = do
    t ← process_file_flow (p.files.flow name)
    w ← store_tables t agent timestamp p.world
    ok (record { files = shm_unlink name p.files; world = w })

  unfoldable pub store_file_cntr : Bytes → ℕ → Processing W → Result (Processing W)
  unfolding process_file_cntr storage_modules_store_cntr shm_unlink
  store_file_cntr name timestamp p = do
    w ← storage_modules_store_cntr modules (process_file_cntr (p.files.cntr name)) timestamp p.world
    ok (record { files = shm_unlink name p.files; world = w })

  unfoldable pub process_file : Msg → Processing W → Result (Processing W)
  unfolding c_string store_file_flow store_file_cntr
  process_file m p =
      let flow = (do name ← c_string m.filename; store_file_flow name m.agent m.timestamp p) in
      let cntr = (do name ← c_string m.filename; store_file_cntr name m.timestamp p) in
      if m.type == 0 then flow else if m.type == 1 then cntr else ok p
