-- ===== src/Lib.antt =====
-- Models and proofs for C programs of this repository: a keyword search (p1), a shell (p2), a memory allocator (p3),
-- the concurrent counter, list and hash table (p4, p4-final), and a web server with its robust I/O (p5).
--
-- Base holds what the components share: Boolean tests, signed integers, list lemmas, `Outcome` (a
-- value, the end of the process with a status, undefined behaviour, or a loop that outruns the rounds
-- given to it) and C arrays, in which an index names an element or is out of bounds.
--
-- p1/search.c is Search. Search/Merge has `mergeSegments` and `mergeSort` as merge_segments and
-- merge_sort, loops included; an array is a function from indices to elements. Search/Count has the
-- counting loop of `getKeyWordCount` over strings that are lists of bytes, and Search/Main has `main`
-- with the file system and the allocator as parameters (`World`): has_room says whether an allocation
-- succeeds, and usable how many bytes a block really has. The counting loop is given one round for each
-- byte and one more, the sort one level of recursion for each file and one more; both are proved to be
-- enough where the places are in range. The size of a file is an `unsigned` and a place in it an `int`,
-- as in the source; the other `int`s, indices and counts, do not reach 2^31. The truncation of an output file that `fopen`
-- does before the paths are compared is not part of the result of `main`.
--
-- p2 is Shell. A run of its process (Shell/Process) is a function of the calls made so far, the last one
-- first; what a call returns is up to `Os`, which stands for the operating system, the contents of
-- uninitialised arrays and MAX_LENGTH, which no file of p2 defines. `fork` returns once in a model of a
-- run: an answer of 0 makes it a run of the child. Shell/Parser is parser.c with `strtok`, Shell/Basic is
-- basic.c, Shell/Single is single.c, and Shell/Line is shell.c with its main function. A string is the
-- list of its bytes, and what `strtok` leaves of it is passed on. The parsers get a round for each byte
-- and one more, the loops over jobs any number, and enough of them is a condition of the theorems. The
-- cells of the arrays for process ids are written before they are read. Shell/Draft is
-- p2/mysh.c, an older program that exits after one line; its loop gets as many rounds as one likes, and
-- the code behind the exit at line 163 is left out, as nothing reaches it.
--
-- p3/mem.c is Allocator. The memory is read through `int` pointers, so it is a function from addresses
-- to cells, and an address that is not aligned or not mapped has none; an access to it is undefined.
-- `mmap` is a parameter. `State` holds the global variables; mem_init, mem_alloc and mem_free are the
-- three operations with their debug mode, and the loops over patterns run as often as the distance of
-- their bounds says. A walk along the free list is given a round for each chunk and one more, which is
-- proved to be enough for the search. A request that overflows an `int` when it is rounded up or when
-- its header is added is undefined. The theorems compare the mode without debugging with a search on a list of
-- chunks (Allocator/FreeList), which takes the first chunk that is larger than the request, and behind the
-- first chunk one that is exactly as large, and with
-- the release of a block into such a list, merged with what it touches (Allocator/Free).
-- `Mem_Dump` prints and is left out.
--
-- The sockets of p5/cs537.c are Sockets: `Net` says what `socket`, `bind`, `listen`, `connect` and
-- `gethostbyname` answer, and the state that a descriptor is in is read off the calls made
-- (Sockets/Open). An address is its bytes and its port; the order of the bytes of a port is not kept.
--
-- p4-final/handin/counter.c and spin.c are Counter: threads as program counters over shared memory,
-- interleaved one access at a time (`step`), in the build with the spinlock and in the one with PTH. A
-- pthread mutex is a cell that a thread takes when it is free. `Counter_GetValue` reads the value
-- without a lock and changes nothing.
--
-- p4-final/handin/list.c and hash.c are Table. A heap maps addresses to nodes; `malloc` is the argument
-- `fresh`, and a freed node is gone. An operation on a list is one step, since it runs under the list's
-- lock; Counter proves what such a lock gives. Loops over a list are given a round for each node and
-- one more, which is proved to be enough. The versions of these files in p4 and p4/stress-test are the
-- same code without the mutex; their `Hash_Init` leaves the buckets as `calloc` zeroed them.
--
-- The queue of waiting requests in p5/server.c is Server: nodes on a heap behind a sentinel, with a
-- pointer to the last one. `requestPreProcess` is an argument of queue_push, a function on requests
-- that does not touch the links; `malloc` gives an address and what the memory there holds. The loops
-- that look for the place of a request are given a round for each node and one more, which is proved to
-- be enough. The batch size and the number of requests served are not negative and stay below 2^31.
--
-- The workers of p5/server.c are Server.Workers: a schedule of actions, each a part of what one worker does that
-- no other thread interrupts. Each such schedule is one of the program, so a failure that is reached is
-- real. The program has more schedules: the master and the workers hold different locks, and their
-- accesses to the queue and its counters may come in between one another. Nothing is proved of all of those. The
-- handler of the master is accept_request; its wait for a free buffer is left out.
--
-- Server/Start is getargs and main up to the socket; the loop behind it accepts one request after the
-- other. `atoi`, `calloc` and `pthread_create` are parameters.
--
-- p5/cs537.c is Rio: rio_readn, rio_read, rio_readnb, rio_readlineb, rio_writen and their wrappers. What
-- `read` and `write` return is a list, call by call; at the end of the list a call blocks. `rio_t` keeps
-- its buffer of 8192 bytes as an array. A read loop gets a round for each byte and one more.
--
-- p5/request.c is Request: requestParseURI, requestGetFiletype, requestReadhdrs and requestPreProcess,
-- which with its error pages is Request/Preprocess, with `stat` and the contents of uninitialised arrays as parameters. The error pages are
-- Request.Error, and requestServeStatic and requestServeDynamic are Request.Serve; `open`, `mmap`, `fork`, `execve` and
-- the clock are parameters, and so is what `sprintf` makes of the array that it reads and writes at once.
-- `queue_push` of Server takes the preprocessing as a function, and Server/Intake puts this code there.
--
-- A pthread signal that is lost is not modelled. What `sprintf` leaves in an array that it also reads is
-- undefined in C, so nothing is proved of the text of a page or a header.
--
-- Not modelled here: tests and clients, the other wrappers of system calls, and printing of messages.
pub mod Base
pub mod Search
pub mod Counter
pub mod Table
pub mod Allocator
pub mod Server
pub mod Shell
pub mod Rio
pub mod Request
pub mod Sockets
