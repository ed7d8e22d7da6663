-- ===== src/Lib.antt =====
-- Verification of the C exercises of the summer school.
--
-- The repository holds one exercise in each directory; the parts share no code, but several repeat
-- a routine. Each module below models one exercise, or one routine with all its copies:
--   * Base: tests, lists, bytes and buffers that all parts use.
--   * Checksum: `checksum` of les26_syn_storm/src/main.c, les27_channel_level/src/main.c,
--     les28_ping_tracert/src/ping.c and tracert.c, and `gen_crc16` of les31_kernel_ping/ping.c.
--     Memory is a list of bytes, and a read outside of it is `none`. One round of fuel is needed for
--     each word and one for the end.
--   * Allocator: `good_malloc`, `good_free` and the `malloc` hook of les12_malloc/src/main.c, on the
--     table `chunk`. The loops run to `chunk_index`, so they need no fuel of their own.
--   * ChatFsm: the two state machines of les21_FSM/src/server.c, `main` and `waitClient`. What the
--     system calls answer is a list; the loops run over it.
--   * Market: `provider_logic`, `buyer_logic`, `provide` and `buy` of
--     les14_threads/src/lifeSimulator.c, as turns of five threads in any order.
--   * FileManager: `goodSort`, `redraw`, `copy` and the key loop of les11_my_mc/src/main.c. The file
--     system is a record of functions, one for each key. Progress has `progressUpdate` and
--     `drawProgressWindow` as moves in any order.
--   * Editor: the key loop of les10_my_nano/src/main.c, as the counters of the cursor and the calls on
--     the text window. Files has `winRead`, `funcWrite` and the keys that call them; the windows are a
--     parameter with the laws of their manual.
--   * Reversal: les10_my_nano/src/reverse.c, on a descriptor that is a parameter; its first loop needs a
--     round of fuel for each byte and one for the end.
--   * MultiServer: `server_on_epoll`, `server_on_poll` and `server_on_select` of
--     les22_multiprotocol_server/src/server.c, by rounds over what waits at the two sockets.
--   * EchoServer: `tcpServer` of les20_multiclient_chat/src/server.c, over the events of its clients;
--     TcpClient is `tcpClient` of client.c with its child of the server.
--   * ThreadErrno: `errno` of les14_threads/src/my_errno.c, over the calls of the threads.
--   * ForkTree: the processes of les13_fork/src/ierarchy.c.
--   * Packet: what `main` sends in les26_syn_storm/src/main.c (Syn), les27_channel_level/src/main.c
--     (Ethernet), les28_ping_tracert/src/ping.c (Echo) and les25_raw_sockets/src/raw_client.c (Raw, with
--     its wait for the answer), as stores of bytes. `inet_addr` and the old content of the stack are
--     parameters; `htons` and `htonl` are those of a little-endian host.
--   * Trace: the probe and the loop of les28_ping_tracert/src/tracert.c, over the answers that come.
--   * KernelPing: `create_address`, `ping_create`, `addr_oper`, `capture` and the load of
--     les31_kernel_ping/ping.c, with the checksum of Checksum. `htonl` and the numbers that `sscanf`
--     finds are parameters.
--   * Firewall: `capture`, `port_update`, `mod_start` and `mod_exit` of les30_firewall/firewall.c.
--   * CharDriver: `driver_read` and `driver_write` of les29_linux_modules/driver.c, proc_module.c and
--     sys_module.c, with the loads of the three modules. A write needs one round of fuel for each byte of its line.
--   * SharedChat: the server and the two threads of each client of les17_shared_memory/src/server.c and
--     client.c, as moves in any order. `semop` is a parameter with the laws of its manual. Client has the
--     buffers of a client: its nickname, a line, and the text of both.
--   * QueueChat: the two threads of les16_IPC_objects/src/server.c and the messages of its client.c, as
--     moves in any order. The queues are a parameter with the laws of their manual. Client has what
--     `screen_reader` and `main` of client.c make of what is typed.
--   * Shell: `my_getline`, `parse_args`, `parse_com`, the loop of `main` over a line, and the calls of
--     `execlp` of les15_pipes/src/interpretator.c. A line needs one round of fuel for each character and
--     one for the end. Pipes has the descriptors that `recursive_call` gives to the programs of a line,
--     and what goes through its pipes.
--   * Plugins: the list of names, the opening of the libraries and the menu of
--     les9_dynamic_libs/src/main.c. The dynamic linker and the numbers are parameters; the list needs no
--     more fuel than it has bytes.
--   * Sockets: the TCP and UDP halves of les19_sockets/src/server.c and client.c; the connection is the
--     bytes on their way.
--
-- Machine integers are natural numbers with their wrap-around written out. Where C leaves the
-- behaviour undefined (an access outside a buffer, an overflow of an `int`) the model ends in `none`.
--
-- Not modelled: terminals and windows, log messages, sleeps, the forks and signals of the servers,
-- the programs that only pass bytes between a socket and a terminal, the calculators on floating-point
-- numbers, and the Erlang exercises.
pub mod Base
pub mod Checksum
pub mod Firewall
pub mod KernelPing
pub mod CharDriver
pub mod Allocator
pub mod ChatFsm
pub mod Market
pub mod FileManager
pub mod MultiServer
pub mod Editor
pub mod ThreadErrno
pub mod EchoServer
pub mod ForkTree
pub mod Packet
pub mod Trace
pub mod SharedChat
pub mod Shell
pub mod QueueChat
pub mod Plugins
pub mod Reversal
pub mod Sockets
