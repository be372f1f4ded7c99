-- ===== src/Messaging.antt =====
-- The messages of src/messaging.c between the collector and the processing daemon: send_msg and
-- recv_msg on a POSIX message queue, which is the list of its texts, oldest first. All messages
-- have the same priority.
pub mod Delivery
use sflow_toolkit.Base.{
  ℕ, zero, suc, ◌+◌, ◌-◌, ◌%◌, ◌^◌, Option, none, some, List, [], ◌∷◌, ◌++◌, ltb, leb, ◌||◌,
  if◌then◌else◌, length,
}
use sflow_toolkit.Base.Results.{Result, ok, fault, overrun, ◌>>=◌}
use sflow_toolkit.Bytes.{Bytes}
use sflow_toolkit.Util.{
  is_space, skip_space, scan_u, matched, print_decimal, print_u, print_i, c_string,
}
use sflow_toolkit.Agentlist.{strncpy}

-- `msg_t`; the file name is an array of 256 bytes.
pub record Msg : Type 0 where
  pub agent : ℕ
  pub timestamp : ℕ
  pub type : ℕ
  pub filename : Bytes

abbrev pub msg_maxmsgs : ℕ
msg_maxmsgs = 8192

-- `attr.mq_msgsize`, which is `sizeof(msg_t)`.
abbrev pub mq_msgsize : ℕ
mq_msgsize = 268

abbrev pub msg_size : ℕ
msg_size = 512

-- The text of a message: `"%u %u %s %i"`.
unfoldable pub message_text : Msg → Result Bytes
unfolding c_string print_u print_i
message_text m = do
  name ← c_string m.filename
  ok (print_u m.agent (b' ' ∷ print_u m.timestamp (b' ' ∷ (name ++ (b' ' ∷ print_i m.type [])))))

-- `mq_timedsend`, whose time to wait until is in the past: a text that is too long, or that meets a
-- full queue, is not sent.
unfoldable pub mq_timedsend : Bytes → List Bytes → List Bytes
mq_timedsend text q =
    if ltb mq_msgsize (length text) || leb msg_maxmsgs (length q) then q else q ++ (text ∷ [])

unfoldable pub send_msg : Msg → List Bytes → Result (List Bytes)
unfolding message_text mq_timedsend
send_msg m q = do
  text ← message_text m
  if ltb (length text) msg_size then ok (mq_timedsend text q) else fault overrun

-- The characters in front of the first space, and the text behind them.
unfoldable pub split_word : Bytes → Bytes × Bytes
split_word [] = ([], [])
split_word (c ∷ s) =
    let split = split_word s in if is_space c then ([], c ∷ s) else (c ∷ split.0, split.1)

unfoldable pub nonempty_word : Bytes × Bytes → Option (Bytes × Bytes)
nonempty_word ([], rest) = none
nonempty_word (c ∷ word, rest) = some (c ∷ word, rest)

-- The conversion `%s` of `sscanf`.
unfoldable pub scan_word : Bytes → Option (Bytes × Bytes)
unfolding skip_space split_word nonempty_word
scan_word s = nonempty_word (split_word (skip_space s))

-- `sscanf(msg, "%u %u %s %u", …)` with a file name of 256 bytes, and the fields that are set from it.
unfoldable pub parse_message : Bytes → Result Msg
unfolding matched scan_u scan_word strncpy
parse_message text = do
  (agent, s₁) ← matched (scan_u text)
  (timestamp, s₂) ← matched (scan_u s₁)
  (filename, s₃) ← matched (scan_word s₂)
  name ← (if ltb (length filename) 256 then ok filename else fault overrun)
  (type, s₄) ← matched (scan_u s₃)
  ok (record { agent = agent; timestamp = timestamp; type = type; filename = strncpy 256 name })

-- `recv_msg` waits on an empty queue: `none`.
unfoldable pub recv_msg : List Bytes → Option (Result (Msg × List Bytes))
unfolding parse_message
recv_msg [] = none
recv_msg (text ∷ q) = some (do m ← parse_message text; ok (m, q))
