-- ===== src/Lib.antt =====
-- Verification of the programs of the network programming assignments, in C.
--
-- The programs do not share code. Modelled are the distributed file system of Assignment2P1, the
-- shell of Assignment1P1, the cluster shell of Assignment1P2, the chat of Assignment3P1, the
-- packet reader of Assignment3P2, and of the labs those with logic of their own: 1, 2, 3, 7, 8
-- and a part of 6.
--
-- The file system has a name server, data servers and a client. The name server
-- (Assignment2P1/fileNameServer.c) keeps a tree of named nodes and answers the client's commands.
-- The data servers (Assignment2P1/fileDataServer.c) keep the chunks of the files as files of
-- their own. The client (Assignment2P1/Client.c) reads a command, asks the name server, and sends
-- and asks chunks to and from the data servers in turn. All messages are strings that end with a
-- NUL.
--
-- BigFs.NameServer models fileNameServer.c. `Heap` is the memory: a function from addresses to
-- nodes, where 0 is NULL and a load of an address without a node faults. A field that the source
-- has not written is `none`, and reading it faults. `Server` is the state (heap, next address,
-- current directory, strings from the client, bytes to it), `Walk` has the loops over siblings
-- and paths, `Commands` and `Transfer` one function for each command: listDirectory is
-- list_directory, makeDirectory make_directory, changeDirectory change_directory, tobigfs
-- to_bigfs, catfile cat_file, frombigfs from_bigfs, removefile remove_file, movefile move_file,
-- copyfile copy_file; `serve` is the loop of main. The loops take the number of allocated nodes
-- as fuel, which is more than a well-formed list of siblings has. The other modules prove:
-- `Chain`, `Siblings` and `Ready` say what a well-formed directory is and how its list changes;
-- the rest is named for its commands.
--
-- BigFs.Receiver models the two buffers of received bytes that all three programs have, with
-- copyToString (copy_string), readfromClient, readfromName and readfromData (read_round). The
-- bytes come in chunks of any size, and a copy and a round of the reading thread do not overlap:
-- where the source spins until the thread has read more, the model is `blocked`. The loop in one
-- half takes two more rounds than the half has bytes; copyToString is given two crossings to the
-- other half, and a string that the two halves hold needs at most one. `Refine` has the queue of
-- bytes that the buffers stand for.
--
-- BigFs.DataServer models fileDataServer.c. `Files.FileSystem` is a parameter: the files of the
-- operating system, and what access, fopen, fputs and remove are documented to do. The search for
-- a name that no file has takes a bound on the names that it tries; a directory has finitely many
-- files.
--
-- BigFs.Client models Client.c: `State` the state and the messages, `Chunks` the loops over the
-- chunks of a file, `Commands` the commands and the choice among them, and the reading of the
-- data servers' addresses into a table of 10 places. The client's own files are the parameter
-- `Commands.Local`.
--
-- BigFs.Session puts the client and the servers together: `Requests` says what a message is for
-- the server that reads it, `Chunk` follows a file's first chunk to the server and back, and
-- `Listing` has the client and the name server.
--
-- Shell models nextToken, getcommand and getargv of Assignment1P1/functions.c (`Tokens`); the
-- loop of getcommand takes one round more than the line has characters. `Jobs` has insert_job and
-- the table that the main of Assignment1P1/shell.c sets up, with the element that it does not
-- write. `Redirections` has getfile, parsecommand, lessersign and greatersign: the program that
-- is started, its arguments and its files; an exec that fails is not modelled. `Pipelines` has
-- the stages into which pipecommand cuts a command. `Starting` and `Redirects` have the proofs.
-- `Handover` has shmPipe (shm_pipe), messageQueuePipe (message_queue_pipe) and
-- doubleMessageQueue: the first two share one loop (run_stages) over a `Medium`, and have a round
-- for each separator and one more. `Handover.World` is a parameter: the files, PATH, how large
-- the blocks of malloc are, how many bytes behind a message can be read and written (the messages
-- are sent with 8 bytes too many), and what a program writes. `Prompt` is the loop of the main of
-- shell.c, up to the call of parsecommand in the child: what arrives before each read is its
-- input, and a read takes at most 100 bytes.
--
-- Cluster models the cluster shell. Its client (Assignment1P2/clustershell_client.c) reads a file
-- of nodes (`Config`: read_nodes is the loop of main), splits commands (`Arguments`), finds the
-- nodes that a command is for (`Nodes`), runs or sends it (`Commands`: run_here, run_at and
-- run_from are the three parts of runcommand) and joins commands by pipes (`Pipes`:
-- executeshell). What is done is a log of actions; `Pipes.World` is a parameter: if a node
-- accepts a connection and what an action writes, given the log. The copy of a stage's input is
-- taken to come before the stage writes, as it is for programs that read before they write.
-- `Server` is the loop of clustershell_server.c; how large the blocks of malloc are is its
-- parameter. `Session` is the start of the client, with its prompt and the attempts to connect as
-- events in any order. `Routing`, `Flow`, `Session.Running` and `Session.Kept` have the proofs.
--
-- Chat models multicast_chat_client.c of Assignment3P1: `Courses` the shared table and the
-- process that receives (receive is a round of its loop), `Menu` the process that asks and tells;
-- the other modules have the proofs. The bound on the table is the source's, 100 courses.
--
-- Packets models Assignment3P2/read_messages.c: `Reader` the buffer and the values that are
-- printed of a packet (print_packet), on a little-endian machine; `Fields` has the proofs.
--
-- Labs.Relay models a round of the select loop of
-- labs/2016A7PS0064P_lab7/tcp_server_select_oddeven.c, Labs.Checksum and Labs.Ping the checksum
-- and the loop of labs/2016A7PS0064P_lab8/read_icmp.c, Labs.Balancer the parent of
-- labs/2016A7PS0064P_lab1/load_balancer.c with its signals as events, and Labs.Voting the
-- processes of labs/2016A7PS0064P_lab3/voting.c with the two message queues as events in any
-- order, for a number of children that is not negative; these messages are sent with 8 bytes too
-- many as well, and how many bytes behind them there are is part of its state (`behind`).
-- Labs.Tee models labs/2016A7PS0064P_lab2/tee.c, whose loop has at most two rounds more than the
-- input has bytes; of labs/2016A7PS0064P_lab6/code, Labs.Echo models tcp/HandleTcpClient.c and
-- tcp/client.c, Labs.Semaphores sharedmemory/shmserver.c with any number of shmclient.c as steps
-- in any order (`Order` and `Progress` have the proofs), and Labs.Mapped mmap/write.c and
-- mmap/read.c.
--
-- `Base` has what all modules share: the outcomes of C code (`ok`, `fault` for undefined
-- behaviour, `blocked`, `stopped`, `out_of_fuel`), strings as lists of bytes, lists, integers and
-- their decimals (`Base.Decimal`).
--
-- Not modelled: setting up sockets and threads, and data races between the reading thread and a
-- copy; writes that take fewer bytes than they were given; malloc that fails; an exec that fails
-- in the shell of Assignment1P1, its doubleshm, which nothing calls; what the bytes are that
-- messages carry beyond their text; the buffer of inet_ntoa in the cluster shell; a vote or a
-- ballot that a full message queue refuses; the children's handler of lab 1, which only copies
-- lines; labs 4 and 5, which measure the time of writes and of a request; and the programs of lab
-- 6 that show single system calls.
mod Base
pub mod BigFs
pub mod Shell
pub mod Cluster
pub mod Chat
pub mod Labs
pub mod Packets
