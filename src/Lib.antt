-- ===== src/Lib.antt =====
-- RSIM, a simulator of shared-memory multiprocessors. Of its memory system: the cache coherence
-- tables, the pipelines of the caches, the search of a cache and its replacement, the miss status
-- holding registers (MSHRs), the write buffer, the queues of the ports and the directory of a node. Of
-- its processor: the emulation of the SPARC instructions, the branch predictor, the heap of instructions by the time
-- they complete, and the circular queue with the tag converter that stands on it. Paths are those of
-- the repository, from its root.
--
-- How the parts interact. A cache module takes a request from its pipeline and calls `notpres_mshr`.
-- This searches the MSHRs and the lines of the cache, asks the coherence routine what the access
-- needs, and services the request, books an MSHR, coalesces it with an earlier one or has it stall.
-- A reply gives the MSHR back (`RemoveMSHR`). Modules hand requests on through the queues of their
-- ports, and below a write-through L1 cache through the write buffer. The requests that leave the
-- caches come to the directory of the node that the line belongs to. It answers them, or sends
-- messages to the sharers or the owner of the line first, and takes the replies to those messages and
-- the write-backs. On a total miss the cache
-- chooses a victim by `miss_ageupdate`. The processor executes an instruction by its function of
-- funcs.cc, and that of a branch reports the outcome to the branch predictor.
--
-- * Prelude, with Prelude/Tests, Prelude/Lists and Prelude/Result: shared helpers. A C array is a
--   function of the index; a call that may end the simulation (`YS__errmsg`) gives a `Result`.
-- * Req, with Req/Finite: the codes of requests, line states and coherence types
--   (incl/MemSys/req.h, cache.h, cohe_types.h), and a way to decide a test on all their pairs.
-- * Coherence and its children: src/MemSys/setup_cohe.c. `setup_tables` is the list of its calls of
--   `AddEntryToTable` (Table, PrimaryWt, PrimaryWb, SecondaryWb); `cohe_sl` and `cohe_pr` look up in
--   it. Mesi is a description of the L2 protocol by rules; Levels holds the states that a line goes
--   through; Safety what a store and a dirty line are due.
-- * Pipeline and its children: src/MemSys/pipeline.c. The loop of `CyclePipe` over `freespace`
--   runs on fuel, one round for each slot, which is enough since it stops at a slot that it has left.
-- * Cache and its children: the state of a cache (incl/MemSys/cache.h), `notpres`, `hit_update`,
--   `premiss_ageupdate` and `cache_get_cohe_type` (src/MemSys/cache2.c). The loops over a set run by
--   the rounds left, `setsz` of them. The array of arrays is read as the code reads it: by `[0][k]`
--   where it is for small caches, and by `[k / SUB_SZ][k % SUB_SZ]` elsewhere. Victim is
--   `miss_ageupdate`, with what `malloc` returns for an infinite cache as a parameter; Scan, Choice
--   and Replace follow its choice of a line.
-- * Mshr and its children: src/MemSys/mshr.c. The requests that MSHRs point at are in a store by
--   address (`Sim.reqs`), so that two pointers to one request see the same changes. Request,
--   CoheCase and Dispatch are the cases of `notpres_mshr`; Invariant, Keep, Grow and Preserve lead
--   to its invariant; Search, Matched, Hazard and Retire hold what its answers mean.
-- * WriteBuffer and its children: src/MemSys/wb.c. The entries are a list, and the coalesced writes of
--   an entry are a list whose length is the code's counter. Lines is the view of a queue for each
--   line; Effect tells what can happen to a request; Refine and Send relate the two.
-- * Directory and its children: src/MemSys/directory.c. Lines and requests are in stores by
--   address, and a bit vector is a function of the word and of the bit, with words of 32 bits.
--   Sharers are the functions on a full-map vector, Table the chained hash table, Buffer the pending
--   buffer, the queues and what `DirSim` calls of route.c, Cohe with Pending `Dir_Cohe`, and Serve,
--   Reply and Run hold the cases of `DirSim`: a case gives the next one (`Next`), and DIRSTART the
--   work that it finds. A loop over a vector has a round for each word and each bit, and that over
--   the ports one for each port. Where the code uses a null pointer, or goes on with a line that it
--   has not set (`dirdone`), the result is `fatal`. Delays are not modelled: where the directory
--   waits for a time it goes to sleep, or is served. Count, Found, Chains, Effect, Revive, Lines,
--   Invariant, Owner, Waiting, Valid, Kept, Refused, Forwarded, Room and Overflow hold what they do.
-- * PortQueue and its children: src/MemSys/route.c. A port's linked list is a list; Fifo is its view
--   as one queue with the overflow entry last.
-- * Exec and its children: src/Processor/funcs.cc. An int or unsigned is its 32-bit pattern, a number
--   below 2 ^ 32, and a function takes an instance to the instance it leaves (those of the branches
--   the predictor too). Conditions are the tests of the branches, Branch the control transfers, Arith
--   and Flags the integer instructions without and with condition codes, Divide the divisions, Select
--   and FloatSelect the conditional moves. Compare, Carry, Product, Quotient, Ones and Agree hold
--   what they compute. The loop of `fnPOPC` has nine rounds of fuel, one more than a word has digits
--   of four bits. A shift by 32 or more and INT_MIN / -1, which C leaves open, are those of the
--   machine: the low five bits of the amount, and the wrapped quotient.
-- * BranchPred and its children: src/Processor/branchpred.cc, the two-bit tables (History) and the
--   return address stack (Returns), as functions of the index. The decoding of a control transfer,
--   which predicts it and sets where the fetch goes on, is Exec/Transfer; Exec/Followed relates it to
--   the execution of the branch.
-- * InstHeap and its children: src/Processor/instheap.cc, a binary heap in an array by timestamp and
--   tag (Order, Least, Contents). The loop of `insert` runs at most `used` rounds, each to the parent,
--   and that of `GetMin` too, each to a child.
-- * CircQ and its children: incl/Processor/circq.h, a circular queue in an array (Fifo) with a
--   binary search (Found), which runs on `sz` + 1 rounds; its interval gets shorter in each.
-- * TagConverter and its children: src/Processor/tagcvt.cc, the instructions in flight in such a queue
--   (Graduate).
--
-- Bounds. Counters and indices are natural numbers: the code keeps them far below 2 ^ 31, and the
-- invariants bound those of the MSHRs and the pipelines. A search that gives -1 is an `Option`.
--
-- Not modelled: the other modules of the caches (l1cache.c, l2cache.c, cachehelp.c), the bus
-- and the networks, what a module does when the directory takes a message of it or sends it one, the
-- directory's set-up, the simulation kernel, statistics over time, and, of the processor, the
-- pipeline stages, the memory unit, the arithmetic on floating-point values (a value of a conditional
-- move is of any type, and a compare takes the host's tests as parameters) and the loads and stores.
-- The coherence routine of a cache is a field of its record, as in the code; the address map
-- (associate.c) is a parameter, a function for each of its tables.
pub mod Prelude
pub mod Req
pub mod Coherence
pub mod Pipeline
pub mod PortQueue
pub mod Cache
pub mod Mshr
pub mod WriteBuffer
pub mod BranchPred
pub mod Exec
pub mod InstHeap
pub mod CircQ
pub mod TagConverter
pub mod Directory
