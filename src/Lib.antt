-- ===== src/Lib.antt =====
-- netProg: four network programs in C. p1 and p2 move a file from a client to a server (one
-- client, then several with fork or select), p3 is a web server with a thread pool, and p4 a
-- peer-to-peer file sharing network of super nodes, which know who has which file, and children,
-- which have them.
--
-- Super models the super node of p4. Super/Table is the table of shared files (initFileInfoTable,
-- hashFunction, insertFileInfo and searchFileInfo of p4/src/super_lib.c): an array of 1000 cells,
-- probed from a hash on. Super/Node is the node's state, Super/Packet the layout of packets, and
-- Super/Request handleClientRequest, a definition for each message type. Packets are lists of
-- bytes in network order, so that what one node writes is what another one reads; the packets that
-- a child writes are those of p4/src/child.c. What lies outside the program (the client's address,
-- what fresh memory and the stack hold, whether the other super node can be reached and what it
-- answers) is a record Env that the handlers take. Super/Start is how a node starts and greets the
-- other one, in p4/src/super.c, and Super/Server the whole node: the loop of p4/src/super.c over
-- its clients, with the handler as an instance of Pool's Server.
--
-- Pool is the table of descriptors behind select: initPool and addClient of p4/src/common.c and
-- handleClientFds of p4/src/super_lib.c, which p2/src/select_server_utilities.c and
-- p3/src/server_utilities.c repeat. What is done with a request is a parameter (Server). Pool/Turn
-- is the main loop around it, of p4/src/super.c, p4/src/child_lib.c and p3/src/web_server.c, and
-- that of p2/src/select_server.c: what select, accept and ioctl return in a round is an argument
-- (Turn). Pool/Turn/Address is what accept leaves in the variable for a client's address, which is
-- not the address of the first client that a process accepts.
--
-- Web/TaskQueue is the linked queue of p3/src/task_queue.c over a heap of tasks. Every operation
-- runs under the queue's mutex, so it is one step. Web/Semaphore is its semaphore, and the round
-- of the thread of p3/src/thr_pool.c that announces the first task. Web/Threads is the pool of
-- p3/src/thr_pool.c: its state with a place for each thread (System, Pc), and a relation Step with
-- a constructor for each stretch of threadFunc between two locks, for a submission and for the
-- signalling thread, so that the threads take turns in any order. The histories in the state (what
-- was submitted, taken and executed) are not in the program. Web/Server is what the loop of
-- p3/src/server_utilities.c does with a client that is ready, an instance of Pool's Server that
-- enqueues a task, and Web/Http the answer to the request and the client of
-- p3/src/client_utilities.c. Web/Log is writeLog of p3/src/thr_pool.c.
--
-- Transfer is the transfer of a file in p1: Transfer/Packet the header and the senders of
-- p1/src/common_utilities.c, Transfer/Server a round of the loop of p1/src/server.c,
-- Transfer/Client one of p1/src/client.c, and Transfer/Session both together, every packet that
-- one side writes being what the other side's next read returns. A session of a file is given a
-- round for each byte and three more: every block has at least one byte, and the greeting, an
-- empty first block and the name take a round each. Transfer/Thread is a client thread of
-- p2/src/client_utilities.c, which talks to the same server rounds and needs three of them, and
-- the loop of a forked server of p2/src/multi_server_utilities.c. Transfer/Fork is the main
-- program of each side: the accept loop of p2/src/multi_server.c, with a process for each
-- connection and the descriptors that it has open, and the loop of p2/src/client.c that creates
-- the threads. A thread is taken to have copied its number before the next one is created, and has
-- come to its end, or not, when main returns, which joins none.
-- Transfer/Select is handleClientRequest of p2/src/select_server_utilities.c, with the buffer as a
-- pointer that may have been freed, and Transfer/Select/Clients the loop around it, with a slot
-- for each client, an instance of Pool's Server; what the packet on the stack holds at each request
-- is an argument.
--
-- Peer is the download of a file by a child of p4: the answer to a request (handleClientRequest of
-- p4/src/child_lib.c) and the loop of p4/src/child.c that receives the file. Sending takes a round
-- for each block of the file and one for its end, so that more rounds than the file has bytes do.
-- Sizes are kept in an int there: a file of 2^31 bytes or more is refused by the sender, and would
-- overflow the receiver's count.
-- Peer/Server is the thread that serves the peers (childServer and handleClientFds of
-- p4/src/child_lib.c), another instance of Pool's Server.
--
-- Child is the rest of p4/src/child.c: how a child joins a super node, and how it reads the user's
-- command and the answer to a query. Child/Fetch is a round of its main loop, from the command to
-- the stored file. There the super node and the peer are what they answer to a packet; the files
-- below it put the super node's handler and the peer's answer in these places, each packet being
-- read by itself.
--
-- Socket is how sockets are opened: openServerSock, openNBServerSock and openClientSock, which
-- p1/src/server_utilities.c, p2/src/multi_server_utilities.c, p2/src/select_server_utilities.c,
-- p3/src/server_utilities.c, p4/src/common.c and the client_utilities.c of p1, p2 and p3 repeat.
-- What the system calls return is an argument (Os); the calls that are made and the descriptors
-- that are open are the state.
--
-- Run is the result of a piece of C code: a value, a fault (undefined behaviour such as an access
-- outside an array or of freed memory), or a loop that outlasts its fuel. The loops of the table are given 1000
-- rounds, one for each cell; an insertion that is not refused meets an empty cell within them, and
-- so does a search in a table that is not full. MsgType holds the message types of
-- p4/src/protocol.h, Wire the byte order, C strings and copies, Prelude what the files share, and
-- Tests runs on concrete input.
--
-- Not modelled: printing; the reading of a directory, the parsing of arguments, signals and the
-- reaping of processes, which are system calls; the main programs of p1 and p3, which only call
-- what is modelled. A failing malloc is modelled for the buffers of the file transfer and for the
-- tasks of the web server, and nowhere else. A char is signed, as gcc has it on x86-64, and int is
-- taken not to overflow in a hash or in the counts of descriptors and threads.
pub mod Prelude
pub mod Run
pub mod Wire
pub mod MsgType
pub mod Socket
pub mod Pool
pub mod Super
pub mod Transfer
pub mod Peer
pub mod Web
pub mod Child
pub mod Tests
