-- ===== src/Lib.antt =====
-- Taylor UUCP: the packet protocols between two machines, the commands of its work files, and the
-- times at which it may call.
--
-- A protocol moves the bytes of commands and files over a connection. `prot.c` keeps the one buffer of
-- received data, a ring that every protocol reads, and calls the functions of a connection
-- (`conn.h`). `protg.c` is the 'g' protocol: numbered packets with a header, a checksum and a window
-- of packets that are not yet acknowledged. `protf.c` is the 'f' protocol for lines with seven bits:
-- files as printable characters, with one checksum for each file. `prott.c` and `prote.c`
-- are the 't' and 'e' protocols for connections without errors: blocks behind their length, and a file
-- behind its size. `protj.c` recodes the packets of the 'i' protocol so that certain characters are
-- not sent. All pass what they receive to `trans.c`, which is a parameter here. The work that is to be done stands in work files, whose lines
-- `unix/splcmd.c` writes and `lib/parse.c` reads. `uuconf/time.c` turns time strings into lists of
-- spans, which `time.c` consults before a call and before a file is sent.
--
-- Base: names of the library, Boolean tests, lists of bytes, bit fields, and `Outcome`, what a C
--   function that returns a boolean does.
-- Prot: `fsend_data`, `freceive_data`, `breceive_char`. `Port` is abPrecbuf, iPrecstart, iPrecend and
--   the state of the connection. Prot.Room has the contents of the ring, Prot.Transfer and Prot.Char
--   the calls.
-- G: the static variables of protg.c (`Link`), the macros for header bytes, fgsend_control,
--   fgsend_acks and fgcheck_errors. G.Resend has zgadjust_ack and fggot_ack, G.Checksum igchecksum and
--   igchecksum2, G.Receive fgprocess_data (its tests in G.Receive.Parts, its actions in
--   G.Receive.Actions; G.Receive.Kept has the packet's data while acknowledgements are sent,
--   G.Receive.Damaged a packet with a wrong checksum), G.Send fgwait_for_packet, fgsenddata and fgsendcmd, and G.Send.Place the
--   layout of a packet. G.Start has the handshake, fgstart and fgexchange_init, and fgshutdown.
--   G.Frame and G.Payload say what a packet is, as bytes.
-- F: the static variables of protf.c (`Session`), ffsendcmd and ffsenddata; F.Decode has
--   ffprocess_data and ffwait (F.Decode.Ring is about one call, F.Decode.Reads about a call after each
--   read), and F.File fffile, ffawait_ack, ffawait_cksum and ffsend_ack.
-- T: the static variables of prott.c (`Session`), ftstart, ftshutdown, ftsendcmd, ftsenddata,
--   ftprocess_data, ftwait and ftfile. T.Blocks reads the same blocks off a sequence of bytes, T.Agree
--   and T.Refine compare the two, T.Ends has the end of the loops, and Prot.Queue takes bytes from the ring.
-- E: the static variables of prote.c (`Session`) and its functions; E.Number has the format and the
--   reading of the size, E.File and E.RoundTrip feprocess_data on a file, E.Wait fewait.
--   Prot.Delivers is a connection on which the bytes of the other side arrive.
-- J: the packet that fjsend_data of protj.c builds, the loop of fjprocess_data over its indices, and
--   the characters to avoid as fjstart merges them. J.Index is about one index, J.Apply about one round
--   of the loop.
-- Command: `struct scmd` (`Cmd`), fparse_cmd, ulunquote_cmd, fcmd_needs_quotes and uquote_cmd of lib/.
--   Command.Escape has cescape and zquote_cmd_string, Command.Token and Command.Number the functions
--   of the C library that they call, Command.Spool the lines of zsysdep_spool_commands
--   (unix/splcmd.c), and Command.Spool.Asks the commands that it writes alike. No line holds the
--   grade, the size or the position of a command.
-- Time: `struct uuconf_timespan` (`Span`), itadd_span of uuconf/time.c, ftimespan_match and
--   cmax_size_ever of time.c; Time.Parse has _uuconf_itime_parse and Time.Grade uuconf_grade_cmp.
--   Time.Week says what a list of spans means.
-- Tests: concrete data on which the theorems are applied.
--
-- A C function that returns a boolean is a function into `Outcome`: `done` for TRUE, `failed` for
-- FALSE, each with the state, and `stuck` for a fault, a call of ulog with LOG_FATAL, or a loop
-- beyond its rounds. Memory is a function of the index, and reading through NULL is `stuck`. Numbers
-- are natural numbers, with the wrap-around of a C type written out where it can be reached. Counters
-- for statistics do not wrap. A negative limit of errors and the -1 of iGretransmit_seq are `none`.
-- Allocation of memory succeeds. The clock that fgexchange_init reads is a parameter. The
-- parameter error-decay is positive: C divides by it.
--
-- The loop of fsend_data is given 3 rounds (a call of fconn_io sends everything or fills a run of
-- free bytes of the ring, which has two at most), and that of fgsend_acks 8 (one for each
-- sequence number). Those of ftprocess_data are given more rounds than bytes wait, since each
-- takes one at least. The loops that wait for the other side take a number of rounds as an
-- argument, since a silent or noisy connection decides how often they run. A connection is a
-- record of functions on a state of its own; `Documented` states what conn.h says of them.
--
-- `DEBUG` is 2, as in policy.h, so the tests of prote.c that it turns on are part of the model.
--
-- The loops through a time string are given more rounds than the string has characters; the
-- expansion of timetables takes its rounds as an argument, since tables may name each other. `long`
-- has 64 bits and `int` 32; the tests of ctype.h are those of the C locale.
--
-- Not modelled: the allocation of send buffers, the 'i' protocol and the rest of 'j',
-- the queues of trans.c, the rest of the configuration, system calls, log messages and debugging
-- output. Where a character of an index of the 'j' protocol makes a number negative, the model of the
-- loop has no result.
pub mod Base
pub mod Command
pub mod E
pub mod F
pub mod G
pub mod J
pub mod Prot
pub mod T
pub mod Tests
pub mod Time
