-- ===== src/Lib.antt =====
-- SwiftChatSystem: a chat system of several servers in C++.
--
-- Clients hold a WebSocket to GateSvr (backend/gatesvr), which passes their requests on to ZoneSvr
-- (backend/zonesvr). ZoneSvr calls the servers of the parts: FriendSvr for friends, requests,
-- groups of friends and the black list, OnlineSvr for login sessions, AuthSvr for accounts, ChatSvr
-- for messages and FileSvr for files. Each of these has a store over RocksDB whose values are JSON
-- texts, and a service on top of it. All of them log through component/asynclogger.
--
-- Common: Boolean tests on the native numbers, integers with the wrap-around of `int` (Common/Int),
--   `std::string` as a list of bytes (Common/Text) and keys made of fields (Common/Text/Fields).
-- ErrorCode: the enumeration of backend/common/include/swift/error_code.h, its numbers and texts.
-- Storage: RocksDB as an interface with its documented laws: `Get`, a batch written as a whole or
--   not at all, and an ordered iteration below a prefix. Storage/Memory is an instance.
-- Json: nlohmann::json as an interface: an object that was printed is parsed back. A read of a
--   field gives the default where it is missing, and throws where the type differs; `none` is the
--   exception. Strings are taken to be valid UTF-8, so that `dump` does not throw.
-- Friend: backend/friendsvr/internal. Friend/Data, Friend/Keys and Friend/Store are
--   store/friend_store.h and store/friend_store.cpp; Friend/Service is service/friend_service.cpp.
--   Friend/History runs the calls of the service one after another. What GenerateShortId and the
--   clock return are arguments of the calls.
-- Gate: backend/gatesvr/internal. Gate/State is the state of service/gate_service.h and the calls and
--   frames that leave the gate, Gate/Connections, Gate/Sending and Gate/Messages are
--   service/gate_service.cpp, with the handlers (handler/gate_internal_grpc_handler.cpp,
--   handler/websocket_handler.cpp) and the sessions (websocket/ws_listener.cpp) that call it.
--   Gate/Zone has the outcome of a call of ZoneSvr (rpc/zone_rpc_client.cpp) and, as an interface,
--   the generated protobuf code. Gate/History is the relation of one event to the next.
--   A call of ZoneSvr is one event with the login or the request that makes it.
-- Online: backend/onlinesvr/internal. Online/Store is store/session_store.cpp, Online/Service is
--   service/online_service.cpp, over Online/Jwt, the two functions of
--   backend/common/include/swift/jwt_helper.h as an interface. Clock readings are arguments.
--   Online/History runs the calls of the service one after another.
-- Logger: component/asynclogger/src. Logger/Buffer is ring_buffer.cpp with the entry points of
--   async_logger.cpp, Logger/Thread has the thread of backend_thread.cpp and the producers as steps
--   that interleave; a push is two steps, since it tests the stop flag before it takes the lock.
-- Chat: backend/chatsvr/internal/store/message_store.h and message_store.cpp. Chat/Data and Chat/Keys
--   have the records and the keys, Chat/Messages the message store, and Chat/Conversations the
--   conversation store and the registry of private conversations.
-- Group: backend/chatsvr/internal/store/group_store.h and group_store.cpp. Group/Data has the records
--   and the keys, Group/Store the operations; the products of a page and a size are taken to fit
--   into an int.
-- Group/Service and Group/Roles are backend/chatsvr/internal/service/group_service.cpp over that
--   store.
-- Chat/Service and Chat/Sync are backend/chatsvr/internal/service/chat_service.cpp over the
--   stores of Chat and Group.
-- Utils: the hexadecimal encoding and the text functions of backend/common/src/utils.cpp. Loops
--   over a text run on its length and one round more, since every round takes a byte.
-- Jwt: backend/common/src/jwt_helper.cpp. Jwt/Base64 is its encoding, Jwt/Token has JwtCreate and
--   JwtVerify. The HMAC is a function of a key and a text to bytes. Online/Tokens runs OnlineSvr
--   with these tokens.
-- Auth: backend/authsvr/internal. Auth/Store is store/user_store.h and store/user_store.cpp,
--   Auth/Service is service/auth_service.cpp; the digest is a function that may fail.
-- File: backend/filesvr/internal. File/Data and File/Store are store/file_store.h and
--   store/file_store.cpp, File/Service has the paths and the results of
--   service/file_service.cpp, and File/Service/Uploading and File/Service/Download the operations,
--   over the disk of File/Disk, an interface with the documented behaviour of the standard
--   library, of which File/Disk/Memory is an instance. File/Uploads runs them one after another. A
--   write to a stream and its flush may fail; two paths
--   that are different texts name different files; the counts of bytes of an upload fit into 64
--   bits. The ten digits of a port are those of an int.
-- Zone: backend/zonesvr/internal. Zone/Store has the records and the interface of
--   store/session_store.h, with its promise as a store of two functions; Zone/Memory is the store in
--   memory of store/session_store.cpp, and Zone/Service is service/zone_service.cpp over any store
--   and over the clients of rpc/gate_rpc_client.h, which Zone/Gates has as an interface.
-- Tests: the theorems at concrete inputs.
--
-- The handle of the database is open throughout, since a constructor throws where it is not. Two
-- threads that run a service at once are not modelled: the stores take no lock around a read and
-- the write that rests on it. The store of ZoneSvr over Redis and the handlers of its areas stand
-- outside the library, and GateSvr has what it relies on of ZoneSvr as an argument. gRPC, sockets,
-- process start-up, configuration files and the desktop client are not modelled, since they are
-- input and output.
pub mod Common
pub mod ErrorCode
pub mod Storage
pub mod Json
pub mod Utils
pub mod Friend
pub mod Jwt
pub mod Gate
pub mod Logger
pub mod Online
pub mod Auth
pub mod Chat
pub mod Group
pub mod File
pub mod Zone
pub mod Tests
