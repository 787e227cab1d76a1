-- ===== src/Lib.antt =====
-- A model of the CANopen validation host: a program on Lely that plays the master of, or a peer for, a
-- device under test, and runs a table of validation processes against it. The program's own logic is
-- modelled, one module for each part; Lely, the CAN channel, the operating system and the clock are
-- parameters.
--
-- How the parts interact. A Lely event-loop thread runs callbacks, which write observers under a lock.
-- A process thread issues commands and SDO requests, and waits on the observers' condition variables.
-- The runner calls the processes in order.
--
-- Which file models which part (paths from the repository's root):
--   - src/canopen_emcy.cpp, include/canopen_emcy.h: Emcy. emcyCallback is emcy_callback, and the other
--     functions have their names in snake case without the word Canopen. Emcy/History compares the
--     bounded history with the sequence of all messages, Emcy/Observation what its readers see.
--   - src/canopen_nmt.cpp: Nmt (the table of observations) and Nmt/Command (issueNmtCommand and
--     issueNmtCommandAndWaitForState) and Nmt/Command/Confirmed.
--   - src/nmt_heartbeat.cpp: Heartbeat (the Boot and Heartbeat observers), Heartbeat/Process (the Boot
--     wait and heartbeatProcess with its parts), Heartbeat/Process/Restore.
--   - include/canopen_sdo.h: Sdo (readRemoteSdo, writeRemoteSdo, with the shared request state) and
--     Sdo/Results; Sdo/Access (the calls with the default times); Sdo/Block (readRemoteBlockSdo,
--     writeRemoteBlockSdo) and Sdo/Block/Results.
--   - src/nmt_master_process.cpp: NmtMaster (the command ring), NmtMaster/Queue, NmtMaster/Process
--     (nmtMasterProcess with its parts), NmtMaster/Process/Trace and below.
--   - src/canopen_process.cpp: Runner and Runner/Order.
--   - src/srdo_process.cpp: Srdo (data), Srdo/Crc (calculateSrdoChecksum), Srdo/Wire (the payload codec
--     and validateWirePair), Srdo/Channel (SrdoWireFixture), Srdo/PairSync (TxPairSynchronizer), each
--     with a module below it for what it promises.
--   - src/time_process.cpp: Time (the TIME cycle, readTimeDiagnostic, validateContinuousAdvance, and
--     recoverTimeCobIdWithReset with its parts), Time/Cycle, Time/Snapshot, Time/Recovery; Time/Inject
--     (sendTimeFrame, waitForRxCount, waitForAppliedTime, injectAndVerifyTime, verifyInvalidDlc) with
--     Time/Inject/Waits, Time/Inject/Applied and Time/Inject/Noted; Time/Process (timeProcess, by its steps) and
--     Time/Process/Started and Time/Process/Restored.
--   - src/gfc_process.cpp: Gfc (data, and the channel fixture GfcWireFixture), Gfc/Channel, Gfc/Remote (the
--     remote objects and the loops that poll them), with Gfc/Remote/Waits and Gfc/Remote/Counted;
--     Gfc/Process (the cases, the cleanup and gfcProcess) with Gfc/Process/Restored, Counted, Delivered and Settled.
--   - src/storage_process.cpp: Storage (data, the checksum and the layout), Storage/Diagnostic (the target
--     diagnostic and the raw image), Storage/Image, Storage/Process (the modes and storageProcess) with
--     Storage/Process/Supervision and Storage/Process/Restored.
--   - src/sdo_process.cpp: Sdo/Process and Sdo/Process/Restored.
--   - src/sdo_block_process.cpp: Payload (the payloads, their checksum and validatePayload) and
--     Payload/Distinct; SdoBlock (the accesses and the two flags), SdoBlock/Process (the cases and
--     sdoBlockProcess) with Accesses, Commands, Settled, Running, Restored and Stress below it.
--   - src/emcy_consumer_process.cpp: EmcyConsumer (the diagnostic 0x2301 of the device, its snapshots and
--     the wait for the next message), Waits, and EmcyConsumer/Process (the cases, the cleanup and
--     emcyConsumerProcess) with Counted, Accounted and Restored.
--   - src/sdo_client_process.cpp: SdoClient (the control record: requests, waits, the status), with
--     Transaction, Commit, Waits and Kept; SdoClient/Expect (what is asked for and expected) and
--     SdoClient/Process (the cases and sdoClientProcess) with Kept, ReadBack, Restored and Owned. The
--     payloads are those of Payload, which both sources define alike.
--   - src/host_sdo_server_fixture.cpp, include/host_sdo_server_fixture.h: Fixture and Fixture/Owned.
--   - src/shutdown_process.cpp: Shutdown, with Shutdown/Boot and Shutdown/Answered.
--   - Lely has the types of the Lely interface, State the state monad, Attempt the one that stops at the
--     first failure (Attempt/Keeps has the rules for what such code keeps, Attempt/Guards for what it
--     keeps where it succeeds), Waiting the wait on a condition
--     variable, Host the observers and the answers that a process works with. Prelude has the shared
--     names and lemmas. The modules called Examples hold runs on concrete inputs.
--
-- Threads. Observers change only in callbacks, and a callback needs the observer's lock. The callbacks
-- that run between two locks of the process thread are delivered when it takes the second one, and those
-- that run during a wait come in batches, with the predicate tested after each batch; both are
-- arbitrary. A timeout is the end of the batches.
--
-- The process thread's state is a session: the observers, the number of the step, by which the
-- environment's answers are asked for, and a log of the actions. The log, and the lists of commands that
-- were received and consumed in NmtMaster/Process, and the account of the allocations in Fixture, are kept for
-- the theorems; the program has none.
--
-- Numbers are natural numbers; a w-bit integer keeps its wrap-around written out (% 2 ^ w) where the
-- code can reach it. The 64-bit sequence of EMCY events wraps in the model, and the theorems on it ask
-- for it not to. Loops are structural: over the process table, over bytes, and, in Srdo/Channel and
-- Srdo/PairSync, over the turns that the loop takes until the clock has passed its deadline, so that no
-- fuel is needed. Log messages are left out.
--
-- The retries of readTimeDiagnostic are structural recursion on the attempts left. The polling loops of
-- Time/Inject end at a deadline of the steady clock and sleep 20 ms in each turn: they are recursion on
-- the turns left, 1500 ms / 20 ms of them and one more, which are enough because the clock of the model
-- is that of the host, which never goes back, with the time that the program has slept added. The loops
-- of Gfc/Remote are the same with 75 and 15 turns, as they look at the clock only after a sleep. The wait
-- for a frame in Gfc does not sleep: its turns are the nanoseconds of its timeout. The draining of a
-- channel has a read for each frame that the channel holds, which is a parameter, and one more. The wait
-- for a Storage diagnostic command has 10000 ms / 20 ms turns and one more, and the loops over the raw
-- image have a turn for each byte.
--
-- The two loops of SdoClient sleep 20 ms in each turn and look at the clock after it: 100 and 25 turns. Whether
-- the block regression of that validation is compiled in is an argument of SdoClient/Process.
-- The server that SdoBlock works with answers by what it has been sent, so its answers are functions of
-- the validation's state. The stress loop of SdoBlock/Process is recursion on the iterations left.
--
-- The loop of EmcyConsumer sleeps 20 ms in each turn too: 2000 ms / 20 ms turns, which EmcyConsumer/Waits
-- shows to be enough. What the EMCY service of the host does is a parameter of EmcyConsumer/Process, and what
-- the validation has done with it is kept as a list for the theorems. So is what the GFC and the EMCY
-- consumer validation ask of the node's NMT state and learn of it (Nmt/Events), and the states that the
-- block-transfer validation waits for.
--
-- Not modelled: the other validation processes (SYNC, PDO and
-- EMCY producer), the remaining cases of the SRDO validation,
-- and src/main.cpp, which sets up Lely, threads and channels. third_party is other projects' code.
pub mod Prelude
pub mod State
pub mod Lely
pub mod Waiting
pub mod Emcy
pub mod Nmt
pub mod Heartbeat
pub mod Host
pub mod Sdo
pub mod NmtMaster
pub mod Runner
pub mod Srdo
pub mod Attempt
pub mod EmcyConsumer
pub mod Fixture
pub mod Gfc
pub mod Payload
pub mod SdoBlock
pub mod SdoClient
pub mod Shutdown
pub mod Storage
pub mod Time
