-- ===== src/Lib.antt =====
-- A model of the recorder in src-tauri: how a recording is decoded and brought to the rate that
-- transcription works at, how it is cut into windows for a provider, how the application talks
-- with the helper process that captures the sound, how a worker takes a capture from its start to
-- its end, how a chunk of sound gets its final file and its row in the catalog, how transcription
-- jobs are inserted, claimed and recovered, how their results and the edits of a person become
-- revisions of a transcript, how evidence is addressed, and how the local API serves a request
-- that changes something once.
--
-- Common holds what the parts share: Result with its bind, tests on native numbers, lists
-- measured by native numbers, checked arithmetic on u64, the strings of the program, and the
-- interface Floats of floating-point numbers, whose arithmetic is a parameter.
--
-- Audio models src-tauri/src/asr/audio.rs. Audio.antt has the ranges, the conversions of time and
-- the DecodeResourceBudget; Audio/Decode.antt has decode_from_file: its loop over packets is
-- decode_loop, a round is decode_event, the rest is prepare_working_audio. The packets that the
-- container and the codec deliver, the room for a reservation and the resampler are arguments.
-- Audio/Ranges and Audio/Budget prove the arithmetic, Audio/Decode/Packets and Audio/Decode/Mono
-- the loop.
--
-- Vad models src-tauri/src/asr/vad.rs from select_boundary on. Vad/Select.antt chooses a
-- boundary, Vad/Partition.antt cuts a core into windows and validates the detector's cores. A
-- partition runs on fuel, one more than the length of the core; it is enough as each round moves
-- the cursor, and the result is some. The candidates of a boundary run on the end of the range as
-- fuel. The detector is a native library and is not modelled.
--
-- Capture/Protocol models src-tauri/src/capture/protocol.rs. Headers has the messages, with an
-- f32 as its bit pattern, Validate the checks, Codec the frames on the wire, where a reader is
-- the bytes that are left and what the stream ends with, and Sequence the ProtocolValidator. JSON
-- is another package's and is the parameter Json.
--
-- Capture/Coordinator models src-tauri/src/capture/coordinator.rs. Coordinator.antt has the state
-- and new, Operations has preflight, start, pause, resume and stop, Events has handle_event, with
-- the match in dispatch, and drain_once. An operation takes what the transport or the committer
-- answers and returns the coordinator with the result of the method. Phases has Call, one call
-- with its answers, run and run_all, which make calls in sequence, and the diagram PhaseStep.
--
-- Capture/Seal models src-tauri/src/capture/seal.rs. Seal.antt has the requests and the names,
-- Seal/Insert.antt the insertion of a chunk in src-tauri/src/catalog/capture.rs, Seal/Files.antt
-- the calls that change files, as a monad over World, the files of one chunk, Seal/Intents.antt
-- the files of intents, and Seal/Sealer.antt seal itself, with confirm, complete_published and
-- publish for its three ways. Each call is answered by a function of its number, so that a
-- failure and a stop of the process are answers; what a call has done stays done, and no other
-- process changes the files. Seal/Places.antt has the places at which an attempt leaves the file,
-- Sealable says what the request and its file have, Runs, Steps, Publishing and Recovers follow a
-- seal from place to place, and Attempts is about attempts in sequence. The digest is an
-- argument.
--
-- Capture/Committer models src-tauri/src/capture/committer.rs, commit with the request that it
-- makes of Seal's sealer; what the sealer answers is an argument, and so is the sum of a time and
-- a duration. Capture/Committer/Paths.antt has what it uses of paths,
-- Capture/Committer/Numbered.antt is about the numbers of the messages.
--
-- Capture/Session models src-tauri/src/capture/session.rs. Session.antt has the modes, the errors
-- and the registration of the sources, Session/Worker.antt the variables of run_worker and its
-- channels, Session/Rounds.antt a round of its loop, over the coordinator and the committer of
-- the modules above, and run_rounds, the loop for a list of rounds: the thread has no bound on
-- its rounds, and a list of any length stands for a beginning of its run. Session/Start.antt has
-- the session that spawns the worker and waits for its message. Session/Calls.antt shows that the
-- worker changes the coordinator by its calls only, Session/Ends, Session/Shutdown and
-- Session/Success are about the end of the worker, Session/Startup and Session/Reported about the
-- start.
--
-- Jobs models src-tauri/src/catalog/jobs.rs, the statements on the table of transcription jobs.
-- Jobs.antt has the rows and what an UPDATE does; Jobs/Enqueue.antt has the insertion,
-- Jobs/Claims.antt claim, renewal, mark, failure and cancellation, Jobs/Retry.antt and
-- Jobs/Recovery.antt what their names say, each statement a transaction of its own; the index of
-- src-tauri/src/catalog/migrations/ddl.rs that keeps the work unique is part of a statement that
-- may violate it. Jobs/Calls.antt has Statement, with execute and execute_all, which run
-- statements in sequence; Jobs/Fresh.antt is about the row that a claim returns,
-- Jobs/Inserted.antt about insertion and Jobs/Recovery/Loop and Jobs/Recovery/Keeps about
-- recovery. A time is its place in the order of the canonical texts. The order in which SQLite
-- sorts texts is a parameter, and a failing database is not part of the model.
-- Jobs/Coordinator.antt and Jobs/Coordinator/Methods.antt model JobRepository and JobCoordinator
-- of src-tauri/src/asr/job.rs, whose clock is a sequence of readings in milliseconds;
-- Jobs/Coordinator/Claims.antt is about the claim that a coordinator holds.
--
-- Transcripts models the tables of transcripts. Transcripts.antt has their rows with
-- append_revision of src-tauri/src/catalog.rs, Transcripts/Manual.antt has
-- append_manual_revision_from_latest of that file, Transcripts/Publication.antt and
-- Transcripts/Publishing.antt have publish_asr_result of src-tauri/src/catalog/publication.rs,
-- over the jobs of Jobs. A transaction yields the catalog that its commit leaves, and one that
-- fails leaves the catalog as it was; a key that is in use makes a statement fail, and so does
-- the database, at a point of PublicationFailurePoint or at the commit. Transcripts/Changes.antt
-- has Change, a call with its answers, and apply_all, which makes changes in sequence.
-- Transcripts/Inserted and Transcripts/Kept follow the statements, Transcripts/Numbers,
-- Transcripts/Published and Transcripts/Edited are about the numbers of revisions, the
-- publications of a job and manual revisions.
--
-- Evidence models src-tauri/src/service/evidence_uri.rs and the methods evidence_uri of
-- src-tauri/src/domain.rs. Evidence/Decimals.antt has the decimal numbers of an i64: show_i64
-- runs on 20 digits, more than an i64 has. Evidence/RoundTrip is about addresses that are read
-- back.
--
-- Api models src-tauri/src/api. Api/Idempotency.antt has the rows of tool_requests,
-- check_or_claim and the commits of idempotency.rs, and mutation_flow of dispatch.rs with
-- flow_all, which makes requests in sequence; each statement of the database may fail, and a
-- handler is a function of a state of any type. Api/Cursor.antt has the cursors of cursor.rs.
-- JSON, hexadecimal texts and RFC 3339 are arguments.
--
-- Domain models parts of src-tauri/src/domain.rs: CaptureSession with new and transition, and
-- RecordingConfig with its validation, defaults and normalisation; Domain/Sessions.antt and
-- Domain/Configs.antt are about them.
--
-- Machine integers are native numbers with their bounds written out; usize is 64 bits wide, as on
-- the targets of the program.
--
-- Not modelled: processes, sockets and the opening of files, the SQL schema and the queries
-- beside those named, the native engines, the installation of models, the desktop shell, and the
-- handlers of single methods of the local API.
pub mod Api
pub mod Common
pub mod Domain
pub mod Audio
pub mod Vad
pub mod Capture
pub mod Transcripts
pub mod Evidence
pub mod Jobs
