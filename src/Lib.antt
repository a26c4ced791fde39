-- ===== src/Lib.antt =====
-- A verification library for Network-OS-Simulation, a collection of separate C++ programs that
-- simulate protocols and operating system problems. Each program has a module of its own:
-- Lru (NetworkProtocols/LRU.cpp): a web page cache. Lru.Memory has the list nodes in an explicit
--   memory, where a pointer that was never assigned is `wild`; Lru.Cache has the methods of
--   LRUCache, which are `none` where they would follow such a pointer; Lru.Spec has the cache as a
--   list of entries; Lru.Links, Chain, Fresh, Invariant, GetRefines and PutHolds relate the two,
--   and Lru.History has the calls from the constructor on. Lru.Url is ExtractHostAndPath,
--   Lru.Fetch SendHttpGetRequest over system calls that are a parameter, Lru.Session what main does
--   with a URL up to the page, Lru.Listing print and Lru.Turn a turn of the loop in main. The loop
--   of print ends at a null pointer, which the program never makes, so the number of its rounds is
--   an argument, and what the program does after it is undefined.
-- Ospf (NetworkProtocols/OSPF.cpp): routers and their routing tables. Ospf.Router is class Router
--   and the set of routers, Ospf.Dijkstra the search in updateRoutingTable, Ospf.Table the rest of
--   that method, Ospf.Manage createRouter and deleteRouter, whose effect Ospf.Manage.Links and
--   Delete describe, Ospf.FindPath findPath and Ospf.Menu the choices of main. IDs are keys, link
--   weights natural numbers, and sums of weights do not overflow. The search has 100000 rounds for
--   each router, which is shown to be enough; the loop that walks back has fuel from its caller,
--   and is shown to end for all fuel from some bound on.
-- CsmaCa (NetworkProtocols/CSMA_CA_Simulation.cpp): simulateCSMA over a stream of random numbers,
--   one function for each loop; CsmaCa.State has the nodes, CsmaCa.Books their records, and
--   CsmaCa.Hit, Visit, Visits, Wait, Slot and Simulate follow these loops from the inside out.
--   There is no fuel: every loop has a bound in the source.
-- Ecommerce (MultiThreading/Ecommerce.cpp): the requests and the workers that serve them. The
--   number of its rounds is fuel, of which the number of requests is shown to be enough.
--   Ecommerce.Fits is about the choice of a worker, Log about the printed lines, Serve and Service
--   about the loop, and Stats about the sums of the times. Ecommerce.Program is the loop over all
--   services, with the order of `sort` as a parameter, and Requests the requests it reads.
-- Events (Inter Process Communication/Event_Reservation.cpp): the queries over the shared table,
--   for one thread that runs alone. A query that would wait for another thread has the result
--   `waits`. Events.Alone (by Steps) has each query from an idle state, Events.Turns the sequences
--   of them. Events.Threads has any number of threads whose steps interleave:
--   Events.Threads.Change, Seats and Steps are about one step, Counted about all runs: about the
--   lock in any run, and about the counter and the seats in a run in which no thread writes over
--   another's change. Race is about two bookings at once.
-- Restaurant (MultiThreading/Restaurant.cpp): the diner threads and the main thread as moves, each
--   from taking the mutex to the next wait or release; any sequence of moves that can be made is a
--   run. Restaurant.Batch is about the number of diners inside, Restaurant.Lost about a run to a
--   state without moves.
-- Bridge (MultiThreading/Bridge.cpp): the travellers and the mutex, as moves that take the mutex
--   or give it back. Bridge.Crossing is about who is on the bridge, Bridge.Progress about how all
--   get across.
-- Exam (Inter Process Communication/Online_Exam.cpp): the parent's loops over the queue of
--   answers, which is the list of the messages in the order of their arrival, and the final
--   grades, with the percentage in exact arithmetic. Exam.Collect is about one answer, Exam.Marks
--   about all of them, Exam.Grades about the bounds. Exam.Hall has the parent and the children as
--   processes that move one at a time, over two queues with room for a number of messages, which
--   makes msgsnd wait; Exam.Hall.Queue counts messages, and Exam.Hall.Running, Progress and Ends are about all runs, and Exam.Hall.Graded
--   compares the two ways to see the exam.
-- Ftp (FTP/client.cpp and FTP/server.cpp): the file transfer. A program is what it sends and how
--   it goes on with what it receives, and `talk` runs a client with a server. Ftp.Client has
--   transferToServer, getFromServer and the commands, Ftp.Server transferToClient and a round of
--   the loop. Ftp.Talk and Command are about the exchange and the words of a command, Fetch about
--   a file that comes; Ftp.Put, Get, Mput and Mget are about one command, Session about commands
--   that follow one another. There is no fuel: a program is a finite term.
-- Pipes (Inter Process Communication/pipes.cpp): the messages of two children over two pipes. The
--   loop over the words has the length of the message as fuel, which Pipes.Unpack shows to be
--   enough; Pipes.Pack is about messages of one word for each file, Merge about both children,
--   Missing about a file that cannot be read.
-- Wired (Network Simulation using NS-3/WiredTCP.cc): MyApp, with the calls of NS-3 listed in order
--   and the simulator as events. Flows has the statistics of that script and of WirelessTCP.cc.
-- Shared has the lists, sums, texts, integers and dictionaries of all of them, and Tests runs the
--   models and applies the theorems to concrete inputs.
-- Not modelled: NS-3, which the simulation scripts are written for, and the networks that they
--   build of its classes; input and output at the terminal, sockets, files, threads and message
--   queues as far as they are calls of the operating system, and what the parts listed above do
--   not name.
pub mod Shared
pub mod Lru
pub mod Ospf
pub mod Bridge
pub mod CsmaCa
pub mod Ecommerce
pub mod Events
pub mod Exam
pub mod Flows
pub mod Ftp
pub mod Pipes
pub mod Restaurant
pub mod Wired
pub mod Tests
