-- ===== src/Lib.antt =====
-- Verification of rmond-drs, a net-snmp agent module that publishes a Virtuozzo host and its virtual
-- environments as MIB tables and reports them to registered sinks by traps.
--
-- The program's parts. A client registers a sink with a SET on the sink table, and metrics with SETs on
-- the metrix table; net-snmp calls the handlers of the two tables in phases. A committed sink is
-- announced to the scheduler and to the reaper. When its time comes the scheduler's thread runs its
-- job, which takes a snapshot of the server, divides it into traps, sends them, and schedules itself
-- again until the sink's acks are used up; the reaper then erases the sink.
--
-- Files, and the code that they model (paths from the repository's root):
--   Base: names of the libraries, Boolean tests, lists, and the outcome of code that may dereference a
--     null pointer (Base/Tests, Base/Lists).
--   Oid: OIDs and the order of indices; src/mib.h, src/mib.cpp (Central::traps, product),
--     src/details.cpp (Schema<void>::uuid), src/container.h (Less).
--   Container: ThreadsafeContainer::Unit of src/container.cpp: insert, find, find_next (findNext), size,
--     remove, clear, get_subset (getSubset). A set of rows is a list sorted by key.
--   Asn: the policies of src/asn.h and src/asn.cpp, get_x and put_x for each.
--   Automat: Details::Automat and Dispatcher of src/details.h.
--   Tuple: Tuple::Unit and Tuple::Access of src/table.h (get, put, from_request), and the limits and
--     index names of src/details.h.
--   Table: Table::Unit of src/table.h. The id of a tuple stands for the object that shared and weak
--     pointers refer to; lock is weak_ptr::lock, and update a write through a pointer.
--   Request: Table::Request::Unit of src/handler.h: row, inserted, get, put, reserve, commit, rollback.
--   Handler: Handler::Base, Trivial, ReadOnly and Mutable of src/handler.h, and Table::Unit::handle.
--   SinkTable, MetrixTable: the schemas of src/sink.h.
--   Scheduler: Scheduler::Unit of src/scheduler.cpp: go, stop, push, and consume as begin, put_back and
--     expire, between which other threads run; Scheduler/Steps has the steps, and Scheduler/Drain what the
--     consumer does by itself.
--   Value: the providers Named, List and Cell of src/value.h and src/value.cpp, and the visitor that
--     makes the snapshot of a range of tuples.
--   Trap: Trap::pdu of src/value.cpp.
--   Session: Sink::Unit of src/sink.cpp (open_unit for its constructor, limit, metrix, push), and the
--     loop of Inform::push in src/mib.cpp (parts); Session/Report: the whole of Inform::push.
--   Sinks: Inform, Actor and Reaper of src/sink.cpp.
--   Table/Registration: Schema<void>::table and Index::Inject of src/details.h, Key::extract and attach of
--     src/table.h.
--   Server: Server of src/mib.cpp; its events are steps (Server/Steps), where the two halves of a pull are
--     apart since it leaves the mutex in between. Server/Races is what
--     may come between the two halves, and Server/Names operator[] of a map.
--   Central: Central and Handler::Link of src/mib.cpp: init, fini, schedule, link; Central/Startup:
--     Server::inject, Sink::Unit::inject of src/sink.cpp, Handler::Reaper and Snatch::Unit.
--   Environment: Environment of src/environment.cpp.
--   System: Lock, ConditionalVariable and Sdk of src/system.cpp.
--   Perspective: Perspective and CPU::Virtual of src/ve.cpp; Perspective/Rows is touch, the row that an event
--     looks up or makes.
--   VeSchema: the schemas of src/ve.h, and in VeSchema/Laws what mibs/PARALLELS-RMOND-DRS-SMI.txt says of them.
--   Ve: Name, Type, State, Provenance, Memory and CPU of src/ve.cpp; Ve/Cpus: CPU::Virtual::Event and
--     CPU::Usage; Ve/Unit: VE::Unit.
--   Guest: ConnectionToVM of src/ve.cpp (get_last_line is getLastLine); Guest/Handles: its constructor and
--     destructor; Guest/Stats: Counters::Linux::TABLE and the reader of a line.
--   Guests: Counters::Linux::Virtual of src/ve.cpp: uuid2Connection, data_from_lin_vm (dataFromLinVM),
--     data_from_ct (dataFromCT), tuple.
--   Devices: Iterator and Devices of src/ve.cpp.
--   Disk, Disk/Io: VE::Disk of src/ve.cpp. Network, Network/Traffic: VE::Network of src/ve.cpp.
--   License: License::Counter and the part of License::Unit::refresh of src/host.cpp that reads
--     vzlicview; strtoul and the string tests are written out (License/Suffix). Proc: the part of it that
--     reads /proc.
--   Host: the lists of environments, the scalars and what is pulled, of src/host.cpp; Host/Scalars: how the
--     scalars are registered, and Composite::Scalar of src/value.h.
--   Transport, Transport/Linux, Transport/Windows: transport.c, lin_transport.c and win_transport.c of
--     guest-transport; Transport/Decimal is printf of a number.
--   Examples: concrete instances, data, and the theorems at them.
--
-- The agent learns what happens in an environment in two ways: events of the SDK fill the rows of the
-- tables at once, and queries go over what an environment has. The counters of a virtual machine come
-- from a program (guest-transport) that the agent starts in the guest; it prints a line of names and
-- values again and again, and the agent takes the last whole line that has arrived.
--
-- Parameters. net-snmp's comparison of indices is a strict total order (Oid.IndexOrder); what it reads
-- from a varbind is what was stored (Asn.Netsnmp); allocations, SDK calls, reads of a pipe and sends
-- answer as the arguments say; what netsnmp_request_set_error leaves in a request is a field of it;
-- strtod, sscanf and isalpha are functions that are given. Nothing is
-- assumed of a member of a varbind that does not fit what was stored.
--
-- Bounds. Integers are native naturals with the wrap-around of their width written out; an int is its
-- bit pattern of 32 bits, positive when below 2^31. Most loops run over a list, and the scheduler's
-- endless loop is a relation of steps. Three loops run on fuel: Guest.Stats.read_words on one more than
-- the length of the line, since a step takes a character at least; Devices.each on one more than the
-- count of the devices, since a step goes on by one; the digits of n on n + 1, since a step divides by
-- ten. get_last_line runs over what the pipe answers, and each answer that it does not stop at is
-- counted.
--
-- Not modelled: what only passes a call of the Parallels SDK or of net-snmp on, logging, the entry points
-- in src/rmond-drs.cpp, the start of a process in guest-transport/win_transport.c, and the destruction
-- of objects, apart from sinks' sessions, VE::Unit and ConnectionToVM.
pub mod Asn
pub mod Automat
pub mod Base
pub mod Central
pub mod Container
pub mod Devices
pub mod Disk
pub mod Environment
pub mod Examples
pub mod Guest
pub mod Guests
pub mod Handler
pub mod Host
pub mod License
pub mod MetrixTable
pub mod Network
pub mod Oid
pub mod Perspective
pub mod Proc
pub mod Request
pub mod Scheduler
pub mod Server
pub mod Session
pub mod SinkTable
pub mod Sinks
pub mod System
pub mod Table
pub mod Transport
pub mod Trap
pub mod Tuple
pub mod Value
pub mod Ve
pub mod VeSchema
