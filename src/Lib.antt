-- ===== src/Lib.antt =====
-- Verification of the radio backend's own logic.
--
-- The driver sits between a closed native Wi-Fi stack and one L2 instance of hisi-rf-core. This
-- library models the parts that decide when frames and capabilities may cross that border:
--
-- * HostTx (src/netif_l2/host_tx.rs): `Tracker`, the ledger of frames that the native driver has
--   posted to its host queue 4. `Tracker` and its methods are HostTx.antt; the linker wrappers
--   `post`, `dispatch` and `free` are HostTx/Native.antt, with the native functions as a parameter;
--   `close_and_drain` with its polling loop is HostTx/Wait.antt, with the clock, the sleep and the
--   other contexts as a parameter. HostTx/Table, Updates, Admission and Invariant hold the
--   invariant, HostTx/Drain, Tickets and Stale the theorems on drains, tickets and late reports.
-- * UserCleanup (src/netif_l2/user_cleanup.rs): `Tracker`, which certifies a native user deletion
--   only with the receipt of its nested free. UserCleanup/Invariant and Receipts hold its proofs;
--   the linker wrappers `delete` and `free`, which also close the route and queue 4, are
--   UserCleanup/Native.antt, with the native functions as a parameter.
-- * Route (src/netif_l2.rs, src/netif_l2/host_delivery.rs, the route methods of
--   src/netif_l2/initial_session.rs): the callback route. `State` is its record; each function is
--   one critical section of `CallbackRoute`, `Registration`, `TransmitTicket`, `CallbackTicket` and
--   `DeliveryTicket`. Route/Conservation has the steps that contexts take and reachability,
--   Route/Opening and Route/Epochs the theorems on openings and on the epochs of buffers. What the
--   route takes from hisi-rf-core (generations, ingress capabilities, operation ids, queue errors)
--   and the executor's wakers is the parameter `Core`.
-- * InitialSession (src/netif_l2/initial_session.rs): the one-shot bring-up policy of the route.
-- * RxOrigin (src/netif_l2/rx_origin.rs): the census of the epochs in which native RX buffers were
--   bound, for any number of entries.
-- * RxStop (src/netif_l2/rx_stop.rs, src/netif_l2/rx_stop/rebuild.rs): the one-shot native RX stop.
--   `Transaction` and its methods are RxStop.antt; `probe` is RxStop/Rebuild.antt, over any
--   `DescriptorOps`; `stop_once` with its polling loop is RxStop/Waiter.antt, and `handler` is
--   RxStop/Handler.antt, both with the native functions and the other contexts as a parameter.
--   RxStop/Handler/Protocol.antt is an abstract specification of that handler, and RxStop/Certificate,
--   Latches, Waiter/Ends, Handler/Rebuilding, Refines and Status hold the proofs.
-- * Link (src/netif_l2/link.rs): `NativeLink`, the worker's session and transmit owner, over the route
--   and the `L2Port` of hisi-rf-core, which is a parameter. Link/Session.antt holds the proofs.
-- * Deauth (src/upstream_supplicant/deauth.rs): the queue of deauthentication requests with its receipts.
--   Deauth/Window.antt has the invariant, Deauth/Steps what each operation does to it, and
--   Deauth/Receipts and Deauth/Certificate what a receipt is worth. The native call, the wake and the
--   other contexts of `run_inline` are parameters.
-- * MsgQueue (src/osal_queue.rs): the OSAL message queues. MsgQueue/Fifo.antt relates the ring to a list
--   of messages; MsgQueue/Permits.antt interleaves readers and writers with the semaphore of the RTOS
--   driver, which it describes as a counter.
-- * SlotQueue (src/upstream_supplicant.rs): the four queues from the vendor callbacks to the radio
--   runner. What they share is SlotQueue.antt, over the content of a slot; SlotQueue/Queues.antt has
--   each queue. SlotQueue/Order, Room and Delivery hold the proofs. SlotQueue/Association.antt joins the
--   link queue to the route, and SlotQueue/Elements.antt reads the elements of an association response.
-- * EventGroup (src/osal_queue.rs): the OSAL event groups. EventGroup/Wakeups and Covered hold the proofs
--   on the wakeups of registered readers, where each `up` is taken to succeed, and EventGroup/Answers
--   those on what a reader returns. The clock and the semaphore of each round are parameters.
-- * Timer (src/timer.rs): the software timers, over a memory of caller-owned timer objects. Timer/Owners
--   and Lifecycle hold the proofs on slots and handles, Timer/Firing and Silence those on when a timer
--   fires and when it does not, and Timer/Delay those on the sleep of the worker.
-- * Worker (src/incremental_worker.rs): the mailbox between the runner and the worker of the incremental
--   backend. Worker/Mailbox.antt interleaves the rounds of the worker with the calls of one runner.
--
-- The critical sections are atomic, as on the single hart under `critical_section::with`, so an
-- interleaving of contexts is a list of operations or a path of steps. Two functions that are not one
-- critical section are one step of the model all the same: `enqueue` of SlotQueue, which claims,
-- writes and publishes a slot without a lock, and `osal_timer_init`, which takes the lock twice.
-- Machine integers are native natural numbers with the wrap or the saturation written out; `usize` has
-- 32 bits, as on the target. The feature flags for the initial session and for tracked native cleanup
-- are taken as set.
--
-- Bounds: 32 slots for queue 4 and 4 for deletions, as in the source. The two polling loops run on fuel:
-- each round that goes on has read the clock less than 1000 ms after the start, and a sleep lets a
-- millisecond pass, so 1001 rounds are enough.
--
-- Not modelled: the registration of native hooks, raw pointer access and the volatile reads of device
-- memory, which only the native stack gives a meaning; the rest of the supplicant adapter, the
-- authenticator, crypto, BLE and SLE adapters; the deletion of OSAL queues and event groups, the
-- network-stack glue and the diagnostics.
pub mod Common
pub mod HostTx
pub mod UserCleanup
pub mod Route
pub mod RxOrigin
pub mod Deauth
pub mod MsgQueue
pub mod EventGroup
pub mod SlotQueue
pub mod Timer
pub mod Worker
pub mod InitialSession
pub mod Link
pub mod RxStop
