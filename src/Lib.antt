-- ===== src/Lib.antt =====
-- libsimple: the parts of a small C library (src/, include/simple/), of the HTTP server that is its
-- example (httpsrv/) and of the program that tracks a teacher with a camera (tmp/), as functions and
-- step relations, with the theorems that make them correct.
--
-- The parts and their files.
--   Base          shared names, Boolean tests, lemmas on lists, integers and blocks of memory
--   Clib          what is used of the C library on strings: atoi, "%u", "%d", strcasecmp, strstr,
--                 strtok
--   Outcome       results of code that may have undefined behaviour (`fault`) or not end
--   Mutex         src/mutex.c, as a record of the calls
--   CircBuf       src/circ_buf.c: `create`, `read`, `write` and the two counts on the storage;
--                 CircBuf/Spec is a bounded queue
--   ListHead      include/simple/list.h: lists that go round a head, on a store of links
--   HttpMessage   src/httpc.c and include/simple/httpparser.h: a message, its headers, its body, its
--                 encoding
--   HttpParser    src/httpparser.c: `byte_in` is appendByte, `loop` the loop of httpc_parser_parse,
--                 `parse` the whole function
--   Fd            src/fd.c and src/fd_impl.h; Fd/Modes is the end-of-file test and fcntl
--   TcpClient     src/tcpclient.c; TcpClient/Connect is its connecting half
--   ThreadPool    src/threadpool.c, with the semaphore of src/semaphore.c, as a step relation
--   Semaphore     src/semaphore.c: the deadline of simple_sem_wait_timeout
--   Thread        src/thread.c: requests to a worker thread and its replies, as a step relation
--   Url           src/urlparser.c
--   HttpServer    httpsrv/httprequest.c: the answer to one request
--   HttpConnection  httpsrv/client.c: one connection, from the bytes received to the bytes sent
--   Tracking      tmp/, C++. Tracking/Keys and Tracking/MountKeys are the keys and the mouse of
--                 tmp/TeacherRunning.cpp on the state of Tracking/Tracker; Tracking/Points and
--                 Tracking/Mask what a calibration is saved as and made of; Tracking/Tasks
--                 tmp/ptz_oper.h; Tracking/Student tmp/StudentRunning.cpp; Tracking/Tdt the keys
--                 and clicks of tmp/tdt.cpp, which go to both; Tracking/Stamps the debouncing of
--                 tmp/TeacherPtz.h and tmp/StateDuration.h; Tracking/Areas and Tracking/Frames
--                 tmp/TeacherPtz.cpp; Tracking/Analyze tmp/TeacherAnalyze.cpp; Tracking/Views,
--                 on the state of Tracking/Working, and Tracking/Worker
--                 tmp/TeacherRunningImpl.cpp and its header
--   Tests         runs at fixed inputs, and the theorems applied to concrete data
--
-- How they interact. The parser fills a message with the operations of HttpMessage and finds its
-- own state in it; HttpConnection feeds it byte by byte, takes the URL apart with Url and lets
-- HttpServer answer; TcpClient makes its descriptor with Fd; CircBuf records its calls of Mutex.
-- In Tracking, what an image shows goes through the checker of Stamps into the areas, and from
-- there to tasks for the mount; KVConfig, which is not here, is the interface Tracking/Config,
-- with the laws that its users rely on. Where another part keeps a list of list.h (the headers of
-- a message, the tasks and threads of the pool, the pairs of a query), its model is the list that
-- ListHead refines the links to.
--
-- Conventions. A byte is a number, a string the list of its bytes without the NUL. An `int` that
-- the code never makes negative is a natural number; other integers are `ℤ`. Overflow of `int` is
-- not modelled where no theorem needs it; where one does, a bound is among its hypotheses. Memory
-- that is not initialised is an argument (`junk`). Undefined behaviour is `fault`, or `none` where
-- a definition says so. What `select`, `send`, `recv`, `connect`, `getaddrinfo` and `stat` answer
-- are arguments, a list of events where there are many, and the theorems hold for all of them. In
-- Tracking a time is a natural number of some unit and a position a whole number of pixels, where
-- tmp/ has `double`; a duration is an integer. The loop of a worker thread is handed to
-- src/thread.c by its user: in Thread it is any that replies to a request or not and may end
-- between two of them, as include/simple/thread.h has it.
--
-- Fuel. The loop of httpc_parser_parse has one more unit than there are bytes, since each turn uses
-- at least one; those of simple_tcpclient_sendnt and simple_tcpclient_recvnt one more than there are
-- events, since each turn that goes on uses one; the loop over a file in send_local_file one more
-- than it has bytes; the loops of list_for_each and list_for_each_safe one more than there are nodes.
-- Where a theorem speaks of a loop on fuel it says that the fuel is enough.
--
-- Not modelled: releasing memory, but for the loops that free the nodes of a list (ListHead/Release);
-- time-outs as such, log output; httpsrv/server.c, which only accepts connections. src/regex.c is
-- another project's library, and what it answers is a parameter of Url. Of tmp/, which nothing builds,
-- not: what finds people in images and draws them, which is OpenCV's; the angles and the zoom of the
-- mount; smooth tracing; the threads of Ptz and of the windows; the functions under TEST and
-- set_detected_data2, which does not compile.
pub mod Base
pub mod Clib
pub mod Outcome
pub mod CircBuf
pub mod Fd
pub mod HttpConnection
pub mod HttpMessage
pub mod HttpParser
pub mod HttpServer
pub mod ListHead
pub mod Mutex
pub mod Semaphore
pub mod TcpClient
pub mod Tests
pub mod Thread
pub mod ThreadPool
pub mod Tracking
pub mod Url
