-- ===== src/Lib.antt =====
-- A model of libCernVM, a library that starts and steers virtual machines for desktop programs.
--
-- Parts, and the files that model them (paths from the repository's root):
--   src/SimpleFSM.cpp, include/CernVM/SimpleFSM.h: the state machine engine. Fsm/Graph has the
--     registry (FSMRegistryBegin, FSMRegistryAdd, FSMRegistryEnd), Fsm/Search the search
--     findShortestPath, Fsm/Engine the methods FSMGoto, FSMContinue, FSMJump, FSMSkew, FSMActive
--     and the inner loop of FSMThreadLoop.
--   include/CernVM/Hypervisor/Virtualbox/VBoxSession.h: VBox/States has the states of a session,
--     which the engine walks.
--   src/Hypervisor/Virtualbox/VBoxSession.cpp: VBox/Session has the methods that send the engine to a
--     state (open, pause, close, resume, stop, hibernate, start), FSMEnteringState, UpdateSession, the
--     end of update, setProperty, errorOccured and the handlers that stop, save, pause,
--     resume and destroy the machine, on the groups of Parameters. VBox/Session/Disks has mountDisk
--     and unmountDisk, VBox/Macros macroReplace.
--   src/Hypervisor/Virtualbox/VBoxProbes.cpp, include/CernVM/Hypervisor/Virtualbox/VBoxProbes.h:
--     VBox/Probes has analyze, which reads the state of a machine from its log.
--   src/Hypervisor/Virtualbox/VBoxInstance.cpp: VBox/Instance has the table of sessions of Hypervisor, with
--     sessionByVBID, sessionClose, sessionDelete, abort and the clean-ups of loadSessions, and
--     VBox/Instance/Loading loadSessions.
--   src/ParameterMap.cpp, include/CernVM/ParameterMap.h: named parameters in groups that share one
--     map. Parameters has the class, Parameters/Groups what a group reads after each operation,
--     Parameters/Batch the writes between lock and unlock, Parameters/Import the copies between maps,
--     Parameters/Numbers getNum and setNum, and Parameters/Json fromJSON.
--   src/LocalConfig.cpp, include/CernVM/LocalConfig.h: the parameter map that keeps its map in a
--     file. LocalConfig/Escape and LocalConfig/File have the texts that saveMap, saveLines and
--     saveBuffer write and loadMap, loadLines and loadBuffer read; LocalConfig has the class, with
--     save, load and sync; its commitChanges is the parameter `flush` of Parameters.
--   src/ThinIPC.cpp, include/CernVM/ThinIPC.h: messages to the daemon. Ipc/Message has the reads and
--     writes of ThinIPCMessage, Ipc/Chunks its getChunk and putChunk and the loops of send and recv of
--     ThinIPCEndpoint, Ipc/Words the numbers and blocks that they use.
--   src/Callbacks.cpp, include/CernVM/Callbacks.h: listeners to events. Callbacks has the class, and
--     what a callback does is a parameter, for each slot.
--   src/ProgressFeedback.cpp, include/CernVM/ProgressFeedback.h: tasks that report progress to their
--     parents. Progress has the tree and what a task tells, Progress/Tasks its methods.
--   src/DomainKeystore.cpp, include/CernVM/DomainKeystore.h: the public keys of the domains. Keystore has
--     updateAuthorizedKeystore, downloadHypervisorConfig, validateDomainData and signatureValidate.
--   src/contextiso.cpp, src/iso9660.h: the image of a disk with one file. ContextIso has
--     build_simple_cdrom, ContextIso/Tables the bytes that it starts from, ContextIso/Reader what a
--     reader of ISO 9660 makes of an image.
--   src/floppyIO.cpp, src/floppyIO.h: the floppy image through which texts go to the guest and come
--     back. Floppy has the class, Floppy/Image the file behind it, Floppy/Sent what a send writes,
--     Floppy/Mailbox the abstract view.
--   src/Utilities.cpp, include/CernVM/Utilities.h: Utilities/Text splits texts (split, explode, getKV,
--     trimSplit, splitLines, tokenize and their kin), Utilities/Base64 has the encoder and the
--     decoder, Utilities/Arguments splitArguments, Utilities/Clean isSanitized and urlEncode,
--     Utilities/Exec the tries of sysExec, Utilities/Numbers ston and ntos.
--   src/Hypervisor.cpp, include/CernVM/Hypervisor.h: Hypervisor/Version orders versions,
--     Hypervisor/Sessions has the table of sessions (sessionOpen, sessionValidate, checkDaemonNeed, and
--     allocateSession of src/Hypervisor/Virtualbox/VBoxInstance.cpp), whose parameters are those of
--     Parameters, Hypervisor/Downloads the downloads with their checksums, and Hypervisor/Context the
--     disk of buildContextISO.
--
-- How the model stands to the code:
--   * A state's id, an int that the program only gives positive constants, is a natural number; a
--     node pointer is the id under which the node stands in fsmNodes, and the null pointer is none.
--   * A handler is a parameter, a function from the engine to an outcome and the engine it leaves.
--   * The engine is moved by one thread at a time, as fsmGotoMutex, fsmmThreadSafe and fsmPathMutex
--     see to; pausing, stopping and waiting for the thread are not modelled.
--   * findShortestPath takes as fuel the number of nodes, which is the first clip length: a path
--     longer than that is cut, so that the fuel is never used up. The inner loop of the thread
--     takes one round more than the path has nodes.
--   * A std::map is StdMap: an association list that iteration walks in key order.
--   * A ParameterMap object is a Group, which knows the number of its parents, and the Store that all
--     groups of a root share; each operation is one step under the mutex of the map. The methods that
--     call a virtual one are modelled for a plain ParameterMap. CVMWA_LOG writes nothing, as it does
--     without DEBUG, LOGGING and CRASH_REPORTING. A value of the JSON library
--     is given by its members in the order of their names.
--   * Bytes are natural numbers below 256; a std::string is their list. A line end of std::endl is the
--     byte 10. A file that the program holds open is a text; whether it opens for writing, and what
--     the clock says during an operation, are fields of Files.
--   * A loop that edits a value in place takes as fuel one more than the length of the value, and the
--     reading of lines takes the length of the text; each round passes at least one byte that was
--     there at the start.
--   * A short of ThinIPC is its 16-bit pattern, with wrap-around written out; memory is a list of
--     bytes, and an access outside a block is none. The allocator and what stands in fresh memory are
--     parameters, as are the bytes of a long int, sendto and recvfrom. The loops of send and recv take
--     fuel: each round of send but the last takes a byte of the message at least, and each round of
--     recv takes a datagram. The socket itself is not modelled.
--   * The floppy image is a file behind a std::fstream, which does nothing once it has failed; the
--     disk says whether a file is there and can be written.
--   * Positions in a text are of type size_t, and npos is the largest. A loop over positions takes as
--     fuel one more than the bytes of the text; the loop of splitArguments may use up any fuel, and
--     then has no result. A buffer of pointers is a list, and a write outside of it is none.
--   * An int that the code stores a length in is given by its pattern of 32 bits. The accumulator of
--     the base64 code keeps 32 bits.
--   * The download provider, the SHA-256 sum and the decompression are parameters; the provider
--     answers by the number of the call. Files are a map from names to bytes. The loop over checksum
--     files takes fuel, since a goto makes it longer than the number of retries. Reports of progress
--     are left out.
--   * A session is held in the table under its uuid, where the code shares a pointer; what
--     fromParameters adds to the given parameters is left out. The order in which sessionByName looks is
--     that of the uuids.
--   * The clean-ups of loadSessions take as fuel the rounds that they need; the iterator is a place in
--     the table. Telling a session that it is gone adds its uuid to a list.
--   * The log of a machine is a text, read through a stream with its bits eof and fail; a log that is
--     closed has nothing left. Its loop takes fuel, a unit for each line. The length of
--     the file is stored in an int, with wrap-around written out.
--   * The loop of macroReplace takes fuel, since the code may run on for ever.
--   * A progress task is named by its place in a heap; a new one stands at the end, so that a parent
--     stands before its children. The ways up and down the tree take as fuel the number of tasks. What
--     the listeners of a task do is not modelled, and the arithmetic on doubles is a parameter.
--   * A block of the image of a disk is a function from places to bytes, and each memcpy of a length that
--     is not constant is none when it leaves its part. The reader looks at one sector of the directory,
--     which has room for 60 records at most, its fuel. What gmtime gives is an argument.
--   * OpenSSL is a parameter of the keystore, which says whether a text has a signature; and the time is
--     an argument of each update, in seconds.
--   * What runs a program is a parameter of sysExec.
--   * The session of VirtualBox holds what it fires in a list. What VBoxManage answers is given to
--     UpdateSession and destroyVM, which leave out the reports of progress and the clean-up of the
--     folder. mountDisk is given the disks that VirtualBox lists and the new uuid, and tells which files
--     are removed by hand. Times are of 64 bits.
--
-- Not modelled: what only calls the system, libcurl, OpenSSL, zlib or VBoxManage, and the handlers of
--   the VirtualBox session that build its machine, which the engine takes as a parameter.
pub mod Prelude
pub mod StdMap
pub mod Fsm
pub mod VBox
pub mod Callbacks
pub mod ContextIso
pub mod Floppy
pub mod Hypervisor
pub mod Ipc
pub mod Keystore
pub mod LocalConfig
pub mod Parameters
pub mod Progress
pub mod Utilities
