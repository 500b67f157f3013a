-- ===== src/Lib.antt =====
-- lsh, a free implementation of the Secure Shell protocols: its packet data, its connections and the
-- channels in them.
--
-- Programs of the package exchange packets. A packet is built by ssh_format from a format string
-- and is taken apart by the parsers of a simple_buffer.
--
-- Modules:
--   Prelude    shared names: tests on numbers, lists over the native numbers, 32-bit words, and Run,
--              the outcome of code that may stop the program by a failed assertion or by fatal.
--   Parse      src/parse.c, parse.h and parse_macros.h. SimpleBuffer is struct simple_buffer, and a
--              Parsed value is the return value with the out-parameters. Parse.Cursor relates a buffer
--              to the bytes that are left, Parse.Refine says what each parser does on those,
--              Parse.Atoms is parse_next_atom, parse_atoms and parse_atom_list, Parse.Utf8 is parse_utf8.
--   LshString  src/lsh_string.c: the writes that check their bounds. LshString.Cells is their algebra.
--   Format     src/format.c. Format.Length is ssh_vformat_length and Format.Write is ssh_vformat_write
--              with ssh_format, both as folds over the characters of the format; Format.Render is what
--              a format stands for, and the other children relate the three.
--   Connection src/connection.c, with ssh_connection_register_channel of src/channel.c: the table of the
--              channels of a connection. Connection.Valid is its invariant, Connection.Alloc and
--              Connection.Entries are the operations, Connection.Reuse and Connection.Reachable are sequences of
--              them.
--   Channel    src/channel.c and channel.h: one channel. Channel.Moves has the handlers of the messages for an
--              active channel, behind their parsing and lookup, Channel.Close is about EOF and CLOSE over
--              any sequence of messages and calls, and Channel.Window about flow control. Channel.Messages
--              has the packets of these messages, written and parsed.
--   SshWrite   src/ssh_write.c: the buffer in front of a file descriptor that takes only some bytes.
--   TransportWrite  src/transport_write.c: encrypted packets in such a buffer. TransportWrite.Size is about
--              select_write_size, TransportWrite.Keeps and Stream about write_data and write_flush, and
--              TransportWrite.Packets about transport_write_packet.
--   Encrypt    src/encrypt.c: the frame of a packet, its MAC and its encryption. Encrypt.Stream fits it to the
--              parameter of TransportWrite.
--   SshRead    src/ssh_read.c: the buffer that is read into.
--   TransportRead  src/transport_read.c: the packets (Header, Packets, Sealed, RoundTrip, Aborts) and the lines
--              (Line) that are taken out of that buffer.
--   Keyexchange  src/keyexchange.c. Keyexchange.Parsing and Keyexchange.Packet have the KEXINIT message,
--              Keyexchange.Select is handle_kexinit, with its child Agreement about the two sides of a connection,
--              and Keyexchange.Keys derives keys.
--   Escape     src/client_escape.c, and the loop of src/client_session.c that sends what the user types.
--              Escape.Machine is the scanner as a machine that reads one byte at a time.
--
-- Representation. A pointer into a packet is the list of bytes that it points at. Numbers are natural
-- numbers, and 32-bit arithmetic is written with its reduction modulo 2^32 (add32, sub32). The lengths of
-- one directive are added before they are reduced, which gives the same number. A byte of a new string
-- that nothing has written is what the parameter `fresh` gives. `%r` leaves the bytes that it reserves.
--
-- Loops are recursion over the format, the arguments, the list of names, or the digits that are left;
-- only count_atoms, shift_mask and expand_key have fuel. For count_atoms it is the bytes left to scan,
-- which bounds the commas that memchr can find. The
-- UTF-8 loop runs over the number of continuation bytes. read_loop has fuel for one call for each byte of
-- the input, since each call passes at least one.
--
-- The two arrays of a channel table are one list of entries. The search for a free number starts at
-- next_channel, which is at most used_channels in every valid table; behind the entries it stops at
-- used_channels. The results of write and writev are a parameter (Attempts), with the
-- hypothesis that a call takes between one byte and all that it is given, or fails; the calls that
-- are interrupted are finitely many.
--
-- The functions of a channel give the channel that they leave and their outputs in order: packets, events,
-- data passed to the receive method, and the call that deallocates the channel number. The event
-- handler of a channel is a parameter that chooses the calls that it makes on its own channel; the
-- receive and send_adjust methods are outputs, and what they call is further calls in the sequence.
--
-- An input buffer is the bytes between its start and its end. What a call of read gives is a parameter of
-- the call that reads (Input). The bytes that a failed MAC leaves behind stay in the buffer, decrypted. The
-- limit of a string that a decompressor writes, and the size of the buffer for a digest, are not checked.
--
-- Of a file descriptor it is only kept whether it is one (has_fd, may_read). The part of channel_finished that
-- concerns the connection is finish_channel of Connection.
--
-- The mask of select_write_size is kept as the number of its low zero bits, of which 32 rounds reach the
-- last; expand_key has one round for each byte of the key, and each digest has at least one byte. A loop
-- of either that ran on would count as a failed assertion, and the theorems say that the calls return.
-- A hash instance is the list of the bytes that it was updated with.
--
-- Parameters. The function encrypt_packet is a parameter of TransportWrite, and the table of algorithms one of
-- Keyexchange.Select; digests are Nettle's (Hash), and ciphers, MACs and compressors are objects of Nettle
-- and zlib (Objects), whose random padding comes from a parameter. The table of atom names is generated by the build (lookup_atom, get_atom_name); the size
-- and the bytes of a bignum, and READ_UINT16, are Nettle's. The Externals record holds what format.c
-- takes from them, with the two laws that it relies on. READ_UINT32 and WRITE_UINT32 are modelled as
-- sftp/buffer.h defines them.
--
-- Not modelled: the object system and its garbage collector, the event loop and the processes, terminals,
-- key files and cryptography, SPKI, and the SFTP programs.
pub mod Channel
pub mod Connection
pub mod Encrypt
pub mod Escape
pub mod Format
pub mod Keyexchange
pub mod LshString
pub mod Parse
pub mod Prelude
pub mod SshRead
pub mod SshWrite
pub mod TransportRead
pub mod TransportWrite
