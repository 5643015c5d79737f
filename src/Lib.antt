-- ===== src/Lib.antt =====
-- vendor-init, the userspace tool that brings the modem of the ASUS X00TD up and activates a data
-- bearer over QMI (vendor-init/*.c), with the transport and the codec below it; and the resources of
-- the IPA resource manager in the kernel.
--
-- The program runs eight stages in order on one context (struct vi_ctx). Each stage talks to one
-- service of the modem: it looks the service up on a QRTR socket, composes a QMI request in an array
-- on the stack, sends it and reads elements of the reply. Results are recorded in files under
-- /run/vendor-init. The first stage that fails ends the run; after the last one main holds the socket
-- of the bearer open until a signal.
--
-- Files:
--   Common           tests, lists, arrays that fault out of bounds (Fault), text (Text), int (Int).
--   Host             the kernel and the modem. A system call is an Event; the answer to it is a
--                    function of the history of events, a parameter (Kernel). A command takes the
--                    World (history, and the static variable of state.c) to a result, to a fault
--                    (an access outside an array) or to stuck (a loop of the model ran out of
--                    rounds). Host.Rules follows the open descriptors, Host.Traces the calls made.
--   Qmi              vendor-init/qmi.c. Qmi.Wire is an independent wire format; Append, Find and
--                    RoundTrip relate the code to it.
--   Qrtr             vendor-init/qrtr.c: qrtr_open, qrtr_lookup, qrtr_txn.
--   State            vendor-init/state.c.
--   Context          struct vi_ctx of vendor-init/vendor-init.h.
--   Request          the requests that the stages compose (Messages), their bytes (Bytes), and
--                    the room that they need (Limits).
--   Stage            one module per vendor-init/stage_*.c: DmsOnline, NasRat (with ServingSystem and
--                    Radios for the reply that it polls), DpmOpen, WdaSet, Dsd, BindMux, WdsStart
--                    (with Prefix for the subnet mask), PostTune, and Fff2 and Iattach, which main
--                    does not run.
--   Main             vendor-init/vendor-init.c: parse_options, run_stages, hold, finish.
--   Rm               the IPA resource manager that the port builds, in
--                    vendor-baseline-4.19/drivers/platform/msm/ipa. PeersList is ipa_rm_peers_list.c,
--                    with the invariant of its count in Counted. ipa_rm_resource.c works on Heap:
--                    Callbacks (producer_handle_cb, consumer_handle_cb), Consumer (consumer_request,
--                    consumer_release and their work), Producer (producer_request, producer_release,
--                    registration), Dependency (add_dependency, delete_dependency) and Lifetime
--                    (resource_create, resource_delete, set_perf_profile), each named as in C without
--                    ipa_rm_resource. DepGraph is ipa_rm_dependency_graph.c. The proofs: Outcome,
--                    Requested and Released on one consumer; Peering, RequestRound, RequestLoop and
--                    RequestEnd on a producer's request, ReleaseLoop on its release; CallbackMap and
--                    CallbackLoop on a callback, Answered and Liveness on all of them; Added and
--                    Dependent on dependencies; Table on the graph. InactivityTimer is
--                    ipa_rm_inactivity_timer.c, and TimerRuns is on any run of it. ipa_rm.c is
--                    Manager (creation, deletion, initialisation), Clients (the other functions of
--                    the interface), Works (the queue's commands and handlers) and Profile (the vote
--                    for voltage and bandwidth), with Voting on the vote.
--   Bus              the bus shim of the port, port/files/drivers/platform/msm/ipa/ipa_v2/
--                    msm_bus_compat.c: register_client, unregister_client and update_request are
--                    msm_bus_scale_*, icc_name is map_src_dst_to_icc_name. Clients has the invariant
--                    of the table, Acquired is on the walk over the vectors, Registered on a
--                    registration, Votes on an update, Runs on any run of calls, Rounding on the
--                    change of units.
--   Hdr              the headers of the IPA driver, vendor-baseline-4.19/drivers/platform/msm/ipa/
--                    ipa_v2/ipa_hdr.c. Slots are the offsets of a table, in bins, and their two lists;
--                    Tables has the entries, Contexts __ipa_add_hdr_proc_ctx and
--                    __ipa_del_hdr_proc_ctx, Headers __ipa_add_hdr and __ipa_del_hdr, Hardware
--                    ipa_generate_hdr_hw_tbl. Apart has the invariant of the slots, Moves keeps it,
--                    Reserve is on a reservation and a release. Live has the invariant of the headers
--                    and Listed that of their list, Joined and Added are on an addition, Dropped and
--                    Deleted on a deletion, Written on the hardware's table, Runs on any run of additions and
--                    deletions.
--   Examples         a kernel and a modem on which the theorems are used.
--
-- Representation: a byte array is a list of numbers, an out-of-bounds access is none or fault, and
-- uint16_t arithmetic has its % 65536. An uninitialised array stands with zeros in a stage, and a
-- request is a function of the array. The descriptor -1 is none. Log lines are left out, and so are usage,
-- fclose and the errno values that are only logged. getopt_long, the kernel, the modem, the clock and
-- the signal handlers are outside: the options are a list, and what the code relies on is in the
-- records Clock (the monotonic clock goes on, and usleep is not cut short) and Signals (pause returns
-- for a signal).
--
-- In the resource manager, a pointer to a resource is its name, which the entry points keep unique; a
-- resource of the wrong type or none behind a pointer is a fault. The drivers' callbacks, the clocks and
-- the suspend are Drivers, functions of the calls so far; perf profiles, the commands for the work queue
-- and the clients' callbacks are Calls of a trace. In the inactivity timer, the
-- work queue outside runs a queued work once, at any time. The bandwidths of a resource are u32; usage_count is an int without its
-- bounds. The loops over peers run over the size of the list, which no operation changes.
--
-- In the tables of headers, an entry is an object on a heap at a pointer, and a freed object is no longer
-- there; the allocations, the handles and the DMA addresses are arguments. The lists of slots are the
-- lists of their offsets. The theorems about headers are on the hardware before IPA v2.5, where every
-- header has a slot; a header outside the table and its own processing context are modelled too.
--
-- Fuel: qmi_tlv_find gets one round more than the message has bytes, and each round takes three; the
-- wait of NasRat gets 61 rounds, one per second of its minute and one to notice the end; the hold of
-- main gets two, since pause returns only when the loop is to end; the count of ones in a subnet mask
-- gets 33. The rounds of the transport are the constants of the source.
--
-- Not modelled: vendor-init/log.c; of the kernel part of the repository (port/, vendor-baseline-4.19/:
-- the IPA and SPS/BAM drivers that the port builds) all but the bus shim, the additions and deletions of ipa_v2/ipa_hdr.c,
-- without its loops over them, its reset, its lookups, the hardware's table of processing contexts
-- and the commit, and the resource manager, of which the calls that ipa_rm_resource.c makes back into ipa_rm.c end in the trace and the printing is
-- left out; the stubs of port/ that return constants; scripts, patches and device trees.
pub mod Common
pub mod Qmi
pub mod Host
pub mod State
pub mod Qrtr
pub mod Request
pub mod Context
pub mod Stage
pub mod Main
pub mod Rm
pub mod Bus
pub mod Hdr
pub mod Examples
