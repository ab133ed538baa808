-- ===== src/Lib.antt =====
-- Verification of severCode, the server of a media sharing program: a chat server and a file
-- server in C++ on the network library muduo, with a MySQL database and JSON messages.
--
-- The parts, and how they work together. ClientSession gets the messages of one client, each a JSON
-- object, and answers them; it keeps no state of its own between messages. UserManager, one for the
-- process, keeps the users and the assets in memory, in front of the database; QueryResult and
-- Field read what the database returns. MySqlManager checks the database and its tables at the start
-- and hands statements on to MySQLTool, which has the connection. BinaryWriter, BinaryReader and the
-- two versions of TcpSession::Send are the binary format of the messages; MsgCacheManager keeps the
-- messages for users who are away. In the file server a FileSession takes a file in the messages of
-- its connection, and answers HTTP requests for files; a second server on httplib serves files too.
--
-- Files, with the code that they model:
--   Prelude   shared names; lists over native numbers; byte strings; results with faults
--   Numerals  std::to_string and std::hex, and reading a number in base 10 or 16
--   Wire      BinaryReader.h, BinaryReader.cpp, TcpSession::Send of ClientSession.h and of
--             FileServer/TcpSession.cpp: Words (integers in memory), Writer, Reader, Length
--             (Compress against the loop that reads it), RoundTrip, Frame
--   MsgCache  MsgCacheManager.h and .cpp: Queue (one queue for each user), History (sequences)
--   Sql       Field.h, Field.cpp, QueryResult.h, QueryResult.cpp: Rows (a result as rows), Loop (the
--             loop that the program writes over a result), Fold (that loop as a fold)
--   Database  mysqltool.h and .cpp (connect, Query, Execute); Maps (std::map), Schema (the tables of
--             the constructor of MySqlManager), Manager (the rest of MySqlManager.cpp); Logged,
--             Retry, Lost and Created (what is sent, and what the calls return), Scanned, Erased and
--             Columns (CheckTable), Client (MySqlManager as the server of UserManager)
--   Users     UserManager.h and .cpp: Types, Statements (the SQL texts), Account (AddUser,
--             GetUserInfoByUsername), Assets, Loading and Loaded (Init and the six loads), Titles
--             and Selection (history and collection), Collect (removeOneCollectInfo), Numbers (the
--             methods that take a user's number)
--   Session   ClientSession.h and .cpp: Process and Dispatch (OnRead, Process), Register, Login,
--             Upload, Records (collection and history), Info and Models (replies that list
--             assets), TableId (getTableID), Distance (levenshteinDistance); Accounts, Stored and
--             Replies prove what several handlers do together
--   Server    the chat server as a whole, as steps: the callbacks of IMServer.cpp and OnRead of the
--             open connections; Ensures (what a call returns), Grown and Handled (what each handler
--             leaves in memory), Kept (what holds whatever clients do), Start (main of
--             ServerMain.cpp, which brings the database and the users together), Loads and Restart
--             (what a start over a database with users has in memory)
--   Upload    the upload of a file of FileServer/FileSession.cpp: Steps (one message, and what holds
--             between messages), Whole (all messages of an upload)
--   Http      the HTTP side of FileServer/FileSession.cpp: requests, paths; Answers
--             (OnHttpResponse); Process (OnRead and Process), Blocks and Chunks (how a file is cut),
--             Client (what a client reads off a response), Request, Responses, Served, Whole, Sizes
--   Media     streamMedia, onStreamMedia and onMediaRequest of FileServer/FileSession.cpp: Held and
--             Leaks (what they give back)
--   FileServer  FileServer/FileManager.cpp and the HTTP server of FileServer/main.cpp: Known (the
--             table of files over time), Provided (the handler with its content
--             provider)
--   Md5       FileServer/MD5.h and MD5.cpp: Transform (one block), the rest in Md5.antt; Spec (the
--             digest of RFC 1321, and what an object stands for), Count, Copied, Blocks, Updated and
--             Padding (update and final), Digested and Again (digest), Printed (toString), Endless
--   Connections  OnConnection, OnClose, IsUserSessionExsit and GetSessionByID of IMServer.cpp, and the
--             callbacks of FileServer/FileServer.cpp: Open (the map against the open connections)
--
-- Conventions. A std::string is the list of its bytes. An int32_t is its bit pattern, and unsigned
-- arithmetic keeps its wrap-around. A method is a function from the state to its result and the
-- new state. Reading outside an object, an exception that nothing catches and the end of fuel are
-- values of `Fault`. What a function prints is left out, and so are the empty handlers. The mutexes
-- of UserManager and MsgCacheManager are held over whole steps, so a method is one step; the callbacks
-- of connections are steps too, although IMServer::OnClose takes no lock. What is sent on a
-- connection is the list of the texts in the order of the sends.
--
-- Fuel. The loops over a query result have fuel: one round for each row left and one more; each
-- round but the last takes a row, and `Sql.Fold.each_row-fold` has the loop end within it. CheckTable
-- takes its fuel as an argument, since its loop need not end: one round for each row is enough in
-- `Database.Columns.check_table-Fits`, and none is in `Database.Columns.check_table-unknown`. The
-- blocks of a file have one more than its bytes, so `Http.Blocks.file_blocks-joined` needs no bound.
--
-- Parameters. The JSON library is `Session.JsonLib`, the MySQL client library is
-- `Database.MySqlLib`, localtime and the random numbers are `Session.TableId.TimeLib`, the file
-- system is `Upload.FileLib`, `Http.Media` and `FileServer.Disk`, where the durations in Http.Media
-- are ffmpeg's; ffmpeg itself is `Media.FfmpegLib`, whose packets are a list, so that reading ends.
-- UserManager and the sessions are over `Users.Types.SqlClient`, which `Database.Client` fills by
-- MySqlManager. Theorems name what they need of them as hypotheses on the values at hand; the runs
-- in the Tests modules show concrete ones for which the hypotheses hold.
--
-- Not modelled: signals, options, daemons, child processes and sockets at the start of both servers,
-- and time stamps of packets, which are calls of the system and of ffmpeg; and the copies of other
-- projects' libraries: muduo (base, net), jsoncpp (jsoncpp, jsoncpp-0.5.0, newJson) and
-- FileServer/httplib.h.
pub mod Media
pub mod Prelude
pub mod Wire
pub mod Md5
pub mod Server
pub mod MsgCache
pub mod Sql
pub mod Users
pub mod Session
pub mod Upload
pub mod Connections
pub mod Database
pub mod Numerals
pub mod Http
pub mod FileServer
