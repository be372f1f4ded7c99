-- ===== src/Samplestore.antt =====
-- The files of samples in src/samplestore.c: getFilePath and addSampleToFile, which writes a sample
-- to the file of its minute and passes the file of the minute before on to the processing daemon.
-- Files are shared memory objects, named by their text; the text of a time of day is a parameter.
pub mod Files
pub mod Minutes
pub mod Passing
pub mod Pcap
use sflow_toolkit.Base.{
  ℕ, zero, suc, ◌+◌, ◌-◌, ◌/◌, ◌%◌, ◌^◌, Option, none, some, List, [], ◌∷◌, ◌++◌, ◌==◌,
  if◌then◌else◌, take, drop,
}
use sflow_toolkit.Base.Results.{Result, ok, ◌>>=◌}
use sflow_toolkit.Base.Heap.{update, deref, deref?}
use sflow_toolkit.Bytes.{Bytes}
use sflow_toolkit.Util.{codes, same, c_string, print_u}
use sflow_toolkit.Parser.Samples.{FlowSample, CntrSample}
use sflow_toolkit.Agentlist.{Agent, AgentList, agentlist_search, strncpy}
use sflow_toolkit.Messaging.{Msg, send_msg}

pub data SampleType : Type 0 where
  sftype_flow sftype_cntr : SampleType

pub data Stored : Type 0 where
  flow : FlowSample → Stored
  cntr : CntrSample → Stored

abbrev pub type_of : Stored → SampleType
type_of (flow s) = SampleType.sftype_flow
type_of (cntr s) = SampleType.sftype_cntr

abbrev pub timestamp_of : Stored → ℕ
timestamp_of (flow s) = s.timestamp
timestamp_of (cntr s) = s.timestamp

abbrev pub address_of : Stored → ℕ
address_of (flow s) = s.agent_address
address_of (cntr s) = s.agent_address

abbrev pub type_code : SampleType → ℕ
type_code SampleType.sftype_flow = 0
type_code SampleType.sftype_cntr = 1

abbrev pub suffix : SampleType → Bytes
suffix SampleType.sftype_flow = codes "flow"
suffix SampleType.sftype_cntr = codes "cntr"

-- An open descriptor: its file, and how many samples stand in front of where it writes.
pub record OpenFile : Type 0 where
  pub file : Bytes
  pub offset : ℕ

pub record FileSystem : Type 0 where
  pub contents : Bytes → List Stored
  pub opened : ℕ → Option OpenFile

-- `fd_flow`, `fn_flow` and `fd_min_flow` of an agent, or the same for its counters.
pub record Slot : Type 0 where
  pub fd : ℕ
  pub name : Bytes
  pub minute : ℕ

unfoldable pub get_slot : SampleType → Agent → Slot
get_slot SampleType.sftype_flow a = record {
  fd = a.fd_flow;
  name = a.fn_flow;
  minute = a.fd_min_flow;
}
get_slot SampleType.sftype_cntr a = record {
  fd = a.fd_cntr;
  name = a.fn_cntr;
  minute = a.fd_min_cntr;
}

unfoldable pub set_slot : SampleType → Slot → Agent → Agent
set_slot SampleType.sftype_flow r a = record a {
  fd_flow = r.fd;
  fn_flow = r.name;
  fd_min_flow = r.minute;
}
set_slot SampleType.sftype_cntr r a = record a {
  fd_cntr = r.fd;
  fn_cntr = r.name;
  fd_min_cntr = r.minute;
}

pub record Store : Type 0 where
  pub agents : AgentList
  pub files : FileSystem
  pub queue : List Bytes

-- `(uint32_t)s->timestamp / 60`
abbrev pub minute_of : ℕ → ℕ
minute_of timestamp = timestamp % 2 ^ 32 / 60

unfoldable pub close : ℕ → FileSystem → FileSystem
close fd fs = record fs { opened = update fs.opened fd none }

-- `shm_open(name, O_CREAT | O_RDWR, …)`, where the system has a descriptor for it or fails: the file
-- keeps what it holds, and is written from its start.
unfoldable pub shm_open : Bytes → Option ℕ → FileSystem → ℕ × FileSystem
shm_open name none fs = (2 ^ 32 - 1, fs)
shm_open name (some fd) fs =
    (fd, record fs { opened = update fs.opened fd (some (record { file = name; offset = 0 })) })

unfoldable pub write_at : ℕ → Stored → List Stored → List Stored
write_at offset x xs = take offset xs ++ (x ∷ drop (suc offset) xs)

-- `write`, on a descriptor that is not open without effect.
unfoldable pub write : ℕ → Stored → FileSystem → FileSystem
unfolding write_at
write fd x fs = elim (fs.opened fd) [
  | none ↦ fs
  | some o ↦ record {
    contents = λ name.
        if same name o.file then write_at o.offset x (fs.contents o.file) else fs.contents name;
    opened = update fs.opened fd (some (record o { offset = o.offset + 1 }));
  }
]

-- The text that `strftime` writes for `"%Y%m%d_%H%M_"` and a local time.
module _ (stamp : ℕ → Bytes) where
  unfoldable pub get_file_path : ℕ → ℕ → Bytes → Bytes
  unfolding print_u
  get_file_path agent_address timestamp behind =
      stamp timestamp ++ print_u agent_address (b'_' ∷ behind)

  -- The message on the file that was closed.
  unfoldable pub closed_file : SampleType → ℕ → ℕ → Slot → Result Msg
  unfolding c_string strncpy
  closed_file type address timestamp r = do
    name ← c_string r.name
    ok (record {
      agent = address;
      timestamp = (minute_of timestamp + (2 ^ 32 - 1)) % 2 ^ 32;
      type = type_code type;
      filename = strncpy 256 name;
    })

  -- `if(a->fd_flow != 0)`
  unfoldable pub pass_on :
      SampleType → ℕ → ℕ → Slot → FileSystem × List Bytes → Result (FileSystem × List Bytes)
  unfolding close closed_file send_msg
  pass_on type address timestamp r (fs, q) =
      let sent = (do
        m ← closed_file type address timestamp r
        q' ← send_msg m q
        ok (close r.fd fs, q')) in
      if r.fd == 0 then ok (fs, q) else sent

  -- The next file: `granted` is what `shm_open` returns.
  unfoldable pub rotate :
      Option ℕ
      → SampleType
      → ℕ
      → ℕ
      → Slot
      → FileSystem × List Bytes
      → Result (Slot × (FileSystem × List Bytes))
  unfolding get_file_path pass_on shm_open strncpy
  rotate granted type address timestamp r (fs, q) = do
    (fs', q') ← pass_on type address timestamp r (fs, q)
    (let filename = get_file_path address timestamp (suffix type) in
        let opening = shm_open filename granted fs' in
        ok (
          record { fd = opening.0; name = strncpy 256 filename; minute = timestamp / 60 % 2 ^ 32 },
          (opening.1, q'),
        ))

  unfoldable pub add_to_agent : Option ℕ → Stored → ℕ → Agent → Store → Result Store
  unfolding get_slot set_slot rotate write
  add_to_agent granted x p a st = do
    (r, (fs, q)) ←
        if minute_of (timestamp_of x) == (get_slot (type_of x) a).minute
        then ok (get_slot (type_of x) a, (st.files, st.queue))
        else rotate granted (type_of x) a.address (timestamp_of x) (get_slot (type_of x) a)
            (st.files, st.queue)
    ok (record {
      agents = record st.agents {
        agents = update st.agents.agents p (some (set_slot (type_of x) r a));
      };
      files = write r.fd x fs;
      queue = q;
    })

  unfoldable pub add_sample_to_file : Option ℕ → Stored → Store → Result Store
  unfolding add_to_agent
  add_sample_to_file granted x st = do
    p ← agentlist_search st.agents (address_of x)
    a ← deref? st.agents.agents p
    (elim p [ none ↦ ok st | some p ↦ add_to_agent granted x p a st ])

  -- The samples of the writing thread, each with what `shm_open` would return.
  unfoldable pub add_samples : List (Option ℕ × Stored) → Store → Result Store
  unfolding add_sample_to_file
  add_samples [] st = ok st
  add_samples ((granted, x) ∷ xs) st = do st' ← add_sample_to_file granted x st; add_samples xs st'
