-- ===== src/Lib.antt =====
-- WindCloud, a cloud disk in C: a server that keeps each user's virtual file system in MySQL tables
-- and the content of files once in a directory of stored files, and a client that downloads one
-- file in parts from several data sources.
--
-- The parts of the program and how they interact. A client talks to the server on a control
-- connection, one packet a command; the session dispatches the commands on the file system, and
-- issues one-time tickets for uploads and downloads. A ticket is carried on a transfer connection,
-- where it is verified and spent. The client divides a download among the data sources, resumes
-- parts from the sizes of their files, and merges them.
--
--   VirtualPath   the path functions of src/server/file/path_utils.c, src/server/file/file_cmds.c,
--                 src/server/core/session.c and src/client/client_command_handle.c
--   Protocol      include/protocol.h and src/common/protocol.c: packets and what is checked on
--                 arrival; Protocol.Stream has send_full and recv_full
--   Ticket        src/server/security/transfer_ticket.c and the tickets of src/common/jwt_utils.c:
--                 the state is the table of nodes, the operations are issue and verify
--   Multipart     src/client/multipart_meta.c and the merge of src/client/client_gets.c
--   Vfs           src/server/data/dao_vfs.c over the tables of src/server/data/db_init.c; Vfs.Entities
--                 and Vfs.Commands are src/server/file/file_cmds.c, a handler taking the session and
--                 the tables to a reply and the tables
--   FileTable     src/server/data/dao_file.c and src/server/data/dao_file_source.c
--   Upload        handle_puts of src/server/file/file_transfer.c; Upload.Receive has the loops that
--                 take the bytes into the stored file, Upload.Handler the stages of the handler,
--                 Upload.RoundTrip an upload that is downloaded again
--   Download      handle_gets and handle_gets_range of the same file, with sendfile and mmap
--   Users         src/server/security/auth.c and src/server/data/dao_user.c: registration and login
--   Session       src/server/core/session.c: Session.Dispatch is a control connection, a step from a
--                 packet and the state (tables and tickets) to a reply and the state, and
--                 handle_request its loop; Session.Requests the download plan and the tickets;
--                 Session.Transfer a transfer connection from its ticket to the transfer
--   Identity      src/server/security/server_identity.c
--   RangeRequest  the text by which a client asks for one part of a file, between
--                 src/client/client_command_handle.c and src/server/core/session.c
--   Queue         src/server/net/queue.c: the linked queue over a memory of nodes
--   TimeWheel     src/server/net/time_wheel.c and src/server/net/control_conn.c: the nodes as doubly
--                 linked lists in memory; TimeWheel.Wheel sees each slot as a list
--   Samples       concrete data for the tests
--   Shared        lists, C strings, signed integers, decimal texts
--
-- Conventions. A C string is the list of its bytes; a copy that does not fit its buffer, which is
-- undefined in C, is `none`, and a handler then answers `overflow`. Integers do not overflow: sizes
-- and ids are far below the bounds of off_t and int. A result of -1 is `none` or `false`.
--
-- The column of a hash has 32 bytes, which UNHEX makes of a text: a record shows it as LOWER(HEX()) does,
-- and a statement on a hash of 64 digits in lower case (is_hash) means what SQL says. What it does with
-- any other text, which the server does not refuse, is Backend's (unhashed_select, unhashed_insert).
--
-- The directory of stored files is a function from names to contents. The server prints the hash of a
-- client behind the directory's path: Backend's resolve says which file that path stands for, which is
-- the one of this name where it is a hash of 64 digits. A call on the disk fails or not like a statement
-- does, by its number. What one connection delivers and how far each recv, send, write and sendfile goes is a
-- record (UploadLink, DownloadLink, MergeDisk); requests run one after another.
--
-- Fuel: send_full, recv_full and the loops of uploads, downloads and merges run on one round more than there are
-- bytes, which is enough since every call moves at least one byte or ends the loop. The loop of
-- time_wheel_tick has more fuel than there are connections in its slot.
--
-- Parameters, as this code cannot be read here: the token library l8w8jwt, the clock, SHA256 and the
-- random bytes (Ticket.Jwt, Session.Server, Session.Draws), the results of send, recv, write, sendfile
-- and stat, and MySQL's choices (Vfs.Backend): which statement fails, the collation, new ids, and what a
-- statement does whose printed arguments are not plain literals, or no hash. A statement on plain literals
-- means what SQL says.
--
-- Not modelled: sockets, epoll, logs, configuration and the connection pool, which are input and
-- output; the event loop of the server, and the workers of the thread pool; the
-- client's side of uploads and of one part's download.
pub mod Shared
pub mod VirtualPath
pub mod Protocol
pub mod Ticket
pub mod Multipart
pub mod Vfs
pub mod FileTable
pub mod Identity
pub mod Upload
pub mod Download
pub mod Users
pub mod Session
pub mod Queue
pub mod RangeRequest
pub mod Samples
pub mod TimeWheel
