-- ===== src/Lib.antt =====
-- ChatBot Shark: a verification of its core.
--
-- The repository holds three versions of a chat program: Shark_2_0_CLI, whose server keeps all data
-- in memory, Shark_3_0_Postgres, and Shark_3_0_Qt, whose server keeps it in PostgreSQL.
--
-- Files and what they model.
--
-- - Base and its children: shared names, lists over the native numbers, Boolean tests, and signed
--   64-bit integers with their two's-complement patterns.
-- - Wire: the binary format of Shark_3_0_Qt/src/core/system/serialize.cpp over the structures of
--   Shark_3_0_Qt/src/dto/dto_struct.h. Wire/Host takes htonl and ntohl as a parameter with their
--   documented laws, and defines toBigEndian64 and fromBigEndian64. Wire/Reader has the reads of
--   `buffer[offset++]` as a monad: a reader's state is the rest of the buffer, and an access past the
--   end is `fault`. Wire/Decode and its children are deSerializeFromBinary and deSerializePacketList,
--   Wire/Encode is serializeToBinary and serializePacketList. Wire/RoundTrip proves what comes back,
--   Wire/Safety which buffers are read within their bounds and what malformed input does, Wire/Orders
--   what the byte order of the hosts changes. Wire/Tests has runs and instances.
--
-- - Text: Shark_3_0_Qt/src/core/system/system_function.cpp. Text/Utf8 has getUtf8CharLen, getCharIndex
--   and TextToLower, Text/Checks the checks of logins, passwords and figures, Text/Sql
--   makeStringForSQL, whose loop has fuel for one round more than the value has bytes, which bound
--   its quotes. Text/Sql/Literal reads literals as a server does.
--
-- - Chat: Shark_2_0_CLI/src/core/chat/chat.cpp, one chat of the version whose server keeps its data in
--   memory. Chat/Parts has messages, users, participants and the ordered containers, Base/Maps the
--   unordered ones. Chat/Times and Chat/Ids are about the multimap of messages and the set of ids,
--   Chat/Invariant about the agreement of the containers, Chat/ReadTimes and Chat/Unread about the
--   count of unread messages, Chat/Deleted about what is deleted. Users are compared by their
--   addresses, and std::cout is left out.
--
-- - System: Shark_2_0_CLI/src/core/chat_system/chat_system.cpp and core/user/user_chat_list.cpp there.
--   The chat lists of the users are a store by the address of the user, since addChatToInstance
--   changes them through shared pointers. System/Lists has the chat lists and the searches,
--   System/Rollback and System/Restore the two loops of addChatToInstance, System/Instance the whole
--   call, System/Create createNewChatId, System/Login and System/Search the users. The loop of
--   createNewChatId on a client has fuel for the largest id and two rounds more, which is enough
--   because no larger id is taken.
--
-- - Request: the packets that Shark_3_0_Qt/src/client/core/client_core.cpp sends, with its header in
--   front, and Shark_3_0_Qt/src/server/packet_parser/packet_parser.cpp, which takes the header off;
--   Request/Accepts is about what the parser lets through, Request/ShortHeader about a header that
--   is cut. The part joins both sides through Wire.
--
-- - Server: the handlers of Shark_2_0_CLI/src/server/server_session.cpp, which run over Chat and
--   System. The state, Server.antt, is the system, the chats that are alive by their addresses, and
--   the next address. A call returns, throws, or is undefined, which is the type Outcome of
--   Wire/Reader. Server/Dto and Server/RequestType are dto/dto_struct.h of that version, Server/Fill
--   the functions that fill structures and registerOnDeviceDataSrv, Server/Create those that create
--   users, chats and messages, Server/Registry processingCheckAndRegistryUser, Server/Objects
--   processingCreateObjects, Server/Routing processingGetIndexes, routingRequestsFromClient and
--   listeningClients from the packets received to the list that is handed to sendPacketListDTO,
--   Server/Checks the remaining look-ups. Server/Ends and Server/Faults have postconditions of calls.
--   Server/Sound, Server/Messages, Server/Chats, Server/Load, Server/Queries and Server/Requests are
--   about what holds of the state between requests, Server/Steps about rounds in a row, as main of
--   server/server.cpp runs them, Server/Served about an answer that comes, Server/Directory,
--   Server/Logins and Server/Enrolment about the users as a directory, Server/Passwords and
--   Server/Answers about replies, Server/Delivery about what is sent of a chat, Server/Leftover,
--   Server/Shadowed and Server/Downfall about a chat that was given up. Server/Examples has runs, Server/Tests instances.
--   An exception that leaves listeningClients, or an undefined step, ends the server. Message ids
--   are bounded by 2 ^ 64 - 1, so the theorems on the state count the messages received.
--
-- - Transport: Shark_3_0_Qt/src/server/session_transport/session_transport.cpp over the calls of the
--   operating system, which are a parameter. Transport/Laws says what is relied on of recv, htonl
--   and ntohl, Transport/Sending of send, Transport/Frames what is sent and received. A loop has as many rounds as bytes
--   are missing, which is enough because a round that goes on moves one at least.
--
-- - Transaction: Shark_3_0_Qt/src/server/sql_commands/sql_commands.cpp over PQexec, which is a
--   parameter. Transaction/Atomic says what is relied on of PostgreSQL, and what a transaction does.
--
-- Conventions. A string is the list of its bytes, a byte a number below 256, an enumeration the
-- number that a cast yields. Bytes that `|` joins are disjoint, so the model adds them. A value that
-- the code declares and never assigns is the parameter `unset`. Loops are counted by the numbers
-- that the code counts by, where nothing else is said.
--
-- Not modelled: logging, the Qt user interface, sockets and UDP discovery, the test data that the
-- in-memory server starts with, its wire format, and the database itself.
pub mod Base
pub mod Wire
pub mod Text
pub mod Chat
pub mod System
pub mod Request
pub mod Server
pub mod Transport
pub mod Transaction
