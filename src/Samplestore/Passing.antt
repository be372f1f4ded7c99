-- ===== src/Samplestore/Passing.antt =====
-- The change of the minute in addSampleToFile of src/samplestore.c: the file that was written is
-- closed and named in a message, and the next file is opened.
use sflow_toolkit.Base.{
  ℕ, ◌+◌, ◌-◌, ◌/◌, ◌%◌, ◌^◌, ◌<◌, ◌≤◌, ◌≡◌, ◌≢◌, refl, ap, ◌∙◌, true, false, some, Option, List,
  [], ◌∷◌, ◌++◌, ◌==◌, length, arith, sym, All,
}
use sflow_toolkit.Base.Results.{ok, and_then}
use sflow_toolkit.Bytes.{Bytes}
use sflow_toolkit.Agentlist.{strncpy}
use sflow_toolkit.Messaging.{Msg, parse_message}
use sflow_toolkit.Messaging.Delivery.{
  IsMsg, IsNameByte, text_of, c_string-strncpy, send_msg-text_of, parse_message-text_of,
}
use sflow_toolkit.Samplestore.{
  FileSystem, Stored, Store, SampleType, Slot, timestamp_of, type_code, suffix, minute_of, get_slot,
  close, shm_open, get_file_path, closed_file, pass_on, rotate, add_to_agent, add_sample_to_file,
  add_samples,
}
use sflow_toolkit.Samplestore.Files.{AgreesBut, write-AgreesBut}
use sflow_toolkit.Samplestore.Minutes.{
  IsOf, IsWriting, IsStored, samples, with_sample, with_sample-IsStored, add_sample-found,
  add_samples-kept,
}

-- A text that is a file name in a message.
pub record IsFileName (text : Bytes) : Type 0 where
  pub bytes : All IsNameByte text
  pub nonempty : 0 < length text
  pub short : length text ≤ 234

-- The message on the file `text` that was closed when the minute `minute` began.
abbrev pub message_on : SampleType → ℕ → ℕ → Bytes → Msg
message_on type address minute text = record {
  agent = address;
  timestamp = (minute + (2 ^ 32 - 1)) % 2 ^ 32;
  type = type_code type;
  filename = strncpy 256 text;
}

type_code-small : (type : SampleType) → type_code type < 2 ^ 32
type_code-small SampleType.sftype_flow = omega arith
type_code-small SampleType.sftype_cntr = omega arith

message_on-IsMsg :
    (type : SampleType) (address minute : ℕ) (text : Bytes)
    → address < 2 ^ 32
    → IsFileName text
    → IsMsg text (message_on type address minute text)
message_on-IsMsg type address minute text range is = record {
  agent = range;
  timestamp = omega arith;
  type = type_code-small type;
  filename = refl;
  bytes = is.bytes;
  nonempty = is.nonempty;
  short = is.short;
}

module _ (stamp : ℕ → Bytes) (type : SampleType) (timestamp : ℕ) where
  pass_on-sent :
      (address : ℕ) (r : Slot) (old : Bytes) (fs : FileSystem) (q : List Bytes)
      → address < 2 ^ 32
      → 0 < r.fd
      → r.name ≡ strncpy 256 old
      → IsFileName old
      → length q < 8192
      → pass_on stamp type address timestamp r (fs, q)
        ≡ ok (
          close r.fd fs,
          q ++ (text_of old (message_on type address (minute_of timestamp) old) ∷ []),
        )
  unfolding pass_on closed_file
  pass_on-sent address r old fs q range valid name is room =
      let there : (r.fd == 0) ≡ false = ground arith in
      let m = message_on type address (minute_of timestamp) old in
      rw there (
        rw (name, c_string-strncpy old is.bytes (omega (arith, is.short)), and_then)
          (rw
            (
              send_msg-text_of old m
                  (message_on-IsMsg type address (minute_of timestamp) old range is) q room,
              and_then,
            )
            refl))

  -- The slot of the file that was opened.
  abbrev next_slot : ℕ → ℕ → Slot
  next_slot fd address = record {
    fd = fd;
    name = strncpy 256 (get_file_path stamp address timestamp (suffix type));
    minute = timestamp / 60 % 2 ^ 32;
  }

  rotate-sent :
      (fd address : ℕ) (r : Slot) (old : Bytes) (fs : FileSystem) (q : List Bytes)
      → address < 2 ^ 32
      → 0 < r.fd
      → r.name ≡ strncpy 256 old
      → IsFileName old
      → length q < 8192
      → rotate stamp (some fd) type address timestamp r (fs, q)
        ≡ ok (
          next_slot fd address,
          (
            (shm_open
                (get_file_path stamp address timestamp (suffix type))
                (some fd)
                (close r.fd fs)).1,
            q ++ (text_of old (message_on type address (minute_of timestamp) old) ∷ []),
          ),
        )
  unfolding rotate shm_open
  rotate-sent fd address r old fs q range valid name is room =
      rw (pass_on-sent address r old fs q range valid name is room, and_then) refl

  opened-IsWriting :
      (fd address : ℕ) (r : Slot) (fs : FileSystem)
      → 0 < fd
      → fs.contents (get_file_path stamp address timestamp (suffix type)) ≡ []
      → IsWriting
          (next_slot fd address)
          (get_file_path stamp address timestamp (suffix type))
          []
          (shm_open
            (get_file_path stamp address timestamp (suffix type))
            (some fd)
            (close r.fd fs)).1
  unfolding shm_open close
  opened-IsWriting fd address r fs valid fresh = record {
    valid = valid;
    name = refl;
    at_end = record {
      opened = let eq : (fd == fd) ≡ true = ground arith in rw eq refl;
      contents = fresh;
    };
  }

opened-contents :
    (text : Bytes) (fd closed : ℕ) (fs : FileSystem) (name : Bytes)
    → (shm_open text (some fd) (close closed fs)).1.contents name ≡ fs.contents name
unfolding shm_open close
opened-contents text fd closed fs name = refl

ne→== : (a b : ℕ) → a ≢ b → (a == b) ≡ false
ne→== a b h = ground arith

-- What the samples of the next minute leave: `text` is its file, `old` that of the minute before.
pub record IsPassedOn (type : SampleType) (address minute p sender : ℕ) (old text : Bytes)
    (xs : List Stored) (st st' : Store) : Type 0 where
  pub stored : IsStored type address minute p text xs st'
  pub agrees : AgreesBut text st.files st'.files
  pub message : Bytes
  pub queue : st'.queue ≡ st.queue ++ (message ∷ [])
  pub received : parse_message message ≡ ok (message_on type sender minute old)

module _ (stamp : ℕ → Bytes) (type : SampleType) (address old_minute minute p : ℕ) (old : Bytes)
    (xs : List Stored) (st : Store) where
  add_sample-passed :
      (is : IsStored type address old_minute p old xs st) (fd : ℕ) (x : Stored)
      → IsOf type address minute x
      → old_minute ≢ minute
      → IsFileName old
      → length st.queue < 8192
      → 0 < fd
      → st.files.contents (get_file_path stamp is.agent.address (timestamp_of x) (suffix type)) ≡ []
      → (st' : Store) × (add_sample_to_file stamp (some fd) x st ≡ ok st')
        × IsPassedOn type address minute p is.agent.address old
            (get_file_path stamp is.agent.address (timestamp_of x) (suffix type))
            (x ∷ [])
            st
            st'
  unfolding add_to_agent
  add_sample-passed is fd x of differ name room valid fresh =
      let a = is.agent in
      let r = get_slot type a in
      let timestamp = timestamp_of x in
      let text = get_file_path stamp a.address timestamp (suffix type) in
      let m = message_on type a.address (minute_of timestamp) old in
      let q' = st.queue ++ (text_of old m ∷ []) in
      let next = next_slot stamp type timestamp fd a.address in
      let fs' = (shm_open text (some fd) (close r.fd st.files)).1 in
      let now : minute_of timestamp ≡ minute = omega (arith, of.range, of.of_minute) in
      let changed : (minute_of timestamp == r.minute) ≡ false =
        ne→== _ _ (λ e. differ (sym is.same_minute ∙ sym e ∙ now)) in
      let w = opened-IsWriting stamp type timestamp fd a.address r st.files valid fresh in
      let run : add_to_agent stamp (some fd) x p a st
          ≡ ok (with_sample stamp type address minute p x next a fs' q' st) =
        rw of.of_type (
          rw changed (
            rw
              (
                rotate-sent stamp type timestamp fd a.address r old st.files st.queue is.range
                    is.writing.valid is.writing.name name room,
                and_then,
              )
              refl)) in
      (
        with_sample stamp type address minute p x next a fs' q' st,
        add_sample-found stamp type address minute p x a st is.is_agent (some fd) of.of_agent ∙ run,
        record {
          stored =
              with_sample-IsStored stamp type address minute p x a st is.is_agent next fs' q' text
                [] (omega (arith, of.range, of.of_minute)) w is.range;
          agrees = λ other differs.
              write-AgreesBut fd text [] x fs' w.at_end other differs
              ∙ opened-contents text fd r.fd st.files other;
          message = text_of old m;
          queue = refl;
          received =
              parse_message-text_of old m
                (message_on-IsMsg type a.address (minute_of timestamp) old is.range name)
              ∙ ap (λ n. ok (message_on type a.address n old)) now;
        },
      )

  -- When the first sample of another minute comes, with more samples of this minute behind it, the
  -- new file gets exactly these samples, in order, all other files stay as they are, and one message
  -- is sent, which recv_msg reads as the agent, the minute before and the name of the file written
  -- up to then. Conditions: the samples have one type and agent and times below 2^32; that file has a
  -- name of 1 to 234 bytes above the space; the queue has room; shm_open gives a descriptor above 0,
  -- and the new file is empty.
  pub add_samples-IsPassedOn :
      (is : IsStored type address old_minute p old xs st) (fd : ℕ) (x : Stored)
      (ys : List (Option ℕ × Stored))
      → IsOf type address minute x
      → All (λ y. IsOf type address minute y.1) ys
      → old_minute ≢ minute
      → IsFileName old
      → length st.queue < 8192
      → 0 < fd
      → st.files.contents (get_file_path stamp is.agent.address (timestamp_of x) (suffix type)) ≡ []
      → (st' : Store) × (add_samples stamp ((some fd, x) ∷ ys) st ≡ ok st')
        × IsPassedOn type address minute p is.agent.address old
            (get_file_path stamp is.agent.address (timestamp_of x) (suffix type))
            (x ∷ samples ys)
            st
            st'
  unfolding add_samples
  add_samples-IsPassedOn is fd x ys of all differ name room valid fresh =
      let text = get_file_path stamp is.agent.address (timestamp_of x) (suffix type) in
      let (st₁, run, first) = add_sample-passed is fd x of differ name room valid fresh in
      let (st', runs, stored, agrees, queue) =
        add_samples-kept stamp type address minute p ys text (x ∷ []) st₁ all first.stored in
      (
        st',
        rw (run, and_then) runs,
        record {
          stored = stored;
          agrees = λ other differs. agrees other differs ∙ first.agrees other differs;
          message = first.message;
          queue = queue ∙ first.queue;
          received = first.received;
        },
      )
