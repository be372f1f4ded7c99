-- ===== src/Lib.antt =====
-- Verification of the sFlow toolkit: the collector, which receives sFlow datagrams and stores their
-- samples in files, and the processing daemon, which sums the samples of a file up for a database.
--
-- The program: stcollectd (src/stcollectd.c) reads its configuration and the list of agents
-- (src/configparser.c, src/agentlist.c), receives datagrams and gives each to parseDatagram
-- (src/sflowparser.c), which finds the agent, parses the samples into the two collect buffers and
-- counts them. Full buffers go through queues to a writing thread and back (src/bufferqueue.c). That
-- thread gives each sample to addSampleToFile (src/samplestore.c), which writes it to the file of its
-- agent and minute, and sends a message on each file that is complete (src/messaging.c). stprocessd
-- (src/stprocessd.c) reads the named files, sums flow samples up in four tables of conversations, by
-- Ethernet, IP, TCP and UDP keys (src/dataparser.c), and gives these, or the counter samples of a
-- file, to the storage modules (src/storage.c, src/storage_mysql.c, src/storage_csv.c).
--
-- The parts, with their files here:
--   src/sflowparser.c, .h, src/sflow.h: Parser. Parser/Readers has the cursor and getData32 and its
--     kin, a datagram being a record with the bytes from the cursor on; Parser/Counters and
--     Parser/Flow parse the two kinds of samples; Parser/Collect has parseSample, parseDatagram and
--     the globals. Parser/Encode describes the format of the agents as encoders, Parser/RoundTrip
--     proves that what they write is parsed, Parser/Bounds what any input takes, Parser/Kept what
--     is left alone, Parser/Signed and Parser/Agents what the code does at some edges.
--   src/agentlist.c, .h: Agentlist, a heap of chains behind a hash; Agentlist/Lookup.
--   src/dataparser.c, .h: Dataparser. Packet has the header fields and is_ip and its kin, Keys the
--     keys and hashes, Conversations the updates, Table the tables with conv_list_add, Process the
--     files. Table/Lookup is the table as a map; the children of Process say what a file
--     of samples leaves in the tables.
--   src/bufferqueue.c, .h: Bufferqueue, on a heap of buffers, with the waiting operations in
--     Bufferqueue/Wait. Chain, Fifo, Init, Pop and Destroy read a queue as a list.
--   src/stcollectd.c: Stcollectd, flushLists and a round of writeBufferToDisk on the queues of the
--     two kinds of buffers; Rotation and Written follow the buffers through them.
--     Memory is allocateMemory, and Memory/Conserved counts the buffers from then on.
--     Collect is the loop of collect over what was received, with the parser's view of the current
--     buffers; Collect/Accounts follows the room and the samples, on Parser/Room, which says that
--     nothing is written behind a buffer that has room. System has the steps of both threads, in any
--     order, on lists of buffers, with the waits for a free one; its children say what the reachable
--     states keep, and which samples are written to the files.
--   src/statistics.c: Statistics, the words of /proc/self/stat and the updates of the databases, which
--     Statistics/Init makes; Databases says that updates go to what was made, Fields which words count.
--   src/configparser.c, .h: Configparser, parse_event as a function on the reader's globals;
--     Settings has the structures, Sections and Lists what the events of a file do,
--     Values which setting each field has at the end.
--   src/storage_csv.c: StorageCsv, the table of the last counters with hash_lookup; Report has the
--     rates, the lines and the file, Remembered, Updated and Rows read the table as a map,
--     Sequence follows several calls.
--   src/samplestore.c: Samplestore, files as lists of samples with open descriptors; Files and
--     Minutes say what writing does, Passing what the change of the minute does; Pcap has the pcap
--     files, as bytes.
--   src/messaging.c: Messaging, a queue of texts, with Messaging/Delivery on what arrives.
--   src/storage.c: Storage, the list of modules and the calls of their functions.
--   src/storage_mysql.c: StorageMysql, the tables and the statements on them; its children
--     Conversations and Counters store records, Schema, Conversations/Stored and Counters/Batches
--     prove what is sent, Conversations/Loaded what the server reads, Module is the module's record.
--   src/stprocessd.c: Stprocessd, process_file, with Stprocessd/Stored from a file to the database, and
--     Stprocessd/Serve the loop of main, up to the turn that waits; Serve/Sent says what is sent to it
--     is processed.
--   src/util.c: Util, num_to_ip and ip_to_num, with the parts of the C library that they use.
--   Base and Bytes are shared: numbers, lists, heaps, results of code that may fault, and byte order.
--     Checks applies the theorems to concrete input.
--
-- Conventions: a pointer is a number on a heap, or the rest of the bytes that it points to; NULL is
-- none. Code that may fault returns a Result: a read behind the bytes of an object, a write behind an
-- array, a dereference of NULL, a read of a variable that was not written. None of these is checked
-- in the sources. Arithmetic wraps at the width of the C type. The host is little-endian, as the
-- shifts and masks of the sources assume. Memory is granted, but where an Allocation says otherwise.
--
-- A bucket of conversations is taken to hold fewer than 2^32 of them, so that the test of num in
-- conv_list_add is that of an empty list.
--
-- Fuel: the walks along a chain have one unit for each node of the heap, that over agents one more.
-- In the table of counters nodes lead to older ones, so this is proved to be enough; over agents the
-- loop never runs. bqueue_destroy has one for each buffer, which is proved to be enough. All other
-- loops are by recursion on their counts or lists. Waits take the list of what the other threads
-- push; a wait that this list does not end returns none.
--
-- Parameters: the database server (which tables it has, from what it was sent), the texts that
-- strftime writes for a time, the descriptor that shm_open returns, the arithmetic of doubles and
-- their texts (src/storage_csv.c), and what the functions of the storage modules work on.
--
-- Not modelled: sockets, signals, the command line and the start of the threads (src/stcollectd.c,
-- src/stprocessd.c), the terminal and the process (src/util.c), src/storage_rrd.c and src/logger.c,
-- which call client libraries or the system; locks, each function under a lock being one step;
-- libyaml, whose events are an argument. The bytes behind the caller's IP key that conv_list_search
-- also compares are an argument of the model of process_sample_flow.
pub mod Agentlist
pub mod Base
pub mod Bufferqueue
pub mod Bytes
pub mod Checks
pub mod Configparser
pub mod Dataparser
pub mod Messaging
pub mod Parser
pub mod Samplestore
pub mod Statistics
pub mod Stcollectd
pub mod Storage
pub mod StorageCsv
pub mod StorageMysql
pub mod Stprocessd
pub mod Util
