-- ===== src/ErrorCode.antt =====
-- common/include/swift/error_code.h: the codes, their numbers and their descriptions.
pub mod Laws
use swift_chat_system.Common.{ℕ}
use swift_chat_system.Common.Text.{Text, codes}

pub data ErrorCode : Type 0 where
  ok unknown invalid_param internal_error not_found already_exists permission_denied : ErrorCode
  rate_limited service_unavailable timeout cancelled data_corrupted unsupported : ErrorCode
  auth_failed token_expired token_invalid user_not_found password_wrong : ErrorCode
  user_already_exists username_invalid password_too_weak account_disabled : ErrorCode
  account_locked email_invalid email_already_used phone_invalid phone_already_used : ErrorCode
  verify_code_wrong verify_code_expired login_elsewhere session_invalid friend_already : ErrorCode
  friend_not_found blocked request_pending request_not_found request_expired : ErrorCode
  self_operation friend_limit_reached block_limit_reached already_blocked not_blocked : ErrorCode
  friend_group_default friend_group_not_found msg_not_found recall_timeout : ErrorCode
  recall_not_allowed msg_too_long msg_empty msg_type_invalid conversation_not_found : ErrorCode
  msg_send_failed msg_already_read offline_msg_limit msg_filtered receiver_offline : ErrorCode
  receiver_blocked conversation_private_cannot_delete file_too_large : ErrorCode
  file_type_not_allowed upload_failed download_failed file_not_found file_expired : ErrorCode
  storage_full file_corrupted checksum_mismatch upload_incomplete file_locked : ErrorCode
  thumbnail_failed group_not_found group_already_exists group_full not_group_member : ErrorCode
  already_group_member not_group_admin not_group_owner group_disbanded : ErrorCode
  invite_not_allowed join_not_allowed kick_not_allowed group_muted member_muted : ErrorCode
  group_name_invalid admin_limit_reached owner_cannot_leave cannot_kick_admin : ErrorCode
  group_members_too_few connection_closed connection_timeout handshake_failed : ErrorCode
  protocol_error message_too_large invalid_frame ping_timeout too_many_connections : ErrorCode
  kick_by_server duplicate_login upstream_unavailable route_not_found user_offline : ErrorCode
  gate_not_found gate_unavailable session_not_found forward_failed broadcast_failed : ErrorCode
  db_connection_failed db_query_failed db_write_failed db_transaction_failed cache_miss : ErrorCode
  cache_write_failed redis_connection_failed rocksdb_error rpc_failed rpc_timeout : ErrorCode
  rpc_cancelled service_not_found network_error dns_failed ssl_error : ErrorCode

unfoldable pub error_code_to_int : ErrorCode → ℕ
error_code_to_int ok = 0
error_code_to_int unknown = 1
error_code_to_int invalid_param = 2
error_code_to_int internal_error = 3
error_code_to_int not_found = 4
error_code_to_int already_exists = 5
error_code_to_int permission_denied = 6
error_code_to_int rate_limited = 7
error_code_to_int service_unavailable = 8
error_code_to_int timeout = 9
error_code_to_int cancelled = 10
error_code_to_int data_corrupted = 11
error_code_to_int unsupported = 12
error_code_to_int auth_failed = 100
error_code_to_int token_expired = 101
error_code_to_int token_invalid = 102
error_code_to_int user_not_found = 103
error_code_to_int password_wrong = 104
error_code_to_int user_already_exists = 105
error_code_to_int username_invalid = 106
error_code_to_int password_too_weak = 107
error_code_to_int account_disabled = 108
error_code_to_int account_locked = 109
error_code_to_int email_invalid = 110
error_code_to_int email_already_used = 111
error_code_to_int phone_invalid = 112
error_code_to_int phone_already_used = 113
error_code_to_int verify_code_wrong = 114
error_code_to_int verify_code_expired = 115
error_code_to_int login_elsewhere = 116
error_code_to_int session_invalid = 117
error_code_to_int friend_already = 200
error_code_to_int friend_not_found = 201
error_code_to_int blocked = 202
error_code_to_int request_pending = 203
error_code_to_int request_not_found = 204
error_code_to_int request_expired = 205
error_code_to_int self_operation = 206
error_code_to_int friend_limit_reached = 207
error_code_to_int block_limit_reached = 208
error_code_to_int already_blocked = 209
error_code_to_int not_blocked = 210
error_code_to_int friend_group_default = 211
error_code_to_int friend_group_not_found = 212
error_code_to_int msg_not_found = 300
error_code_to_int recall_timeout = 301
error_code_to_int recall_not_allowed = 302
error_code_to_int msg_too_long = 303
error_code_to_int msg_empty = 304
error_code_to_int msg_type_invalid = 305
error_code_to_int conversation_not_found = 306
error_code_to_int msg_send_failed = 307
error_code_to_int msg_already_read = 308
error_code_to_int offline_msg_limit = 309
error_code_to_int msg_filtered = 310
error_code_to_int receiver_offline = 311
error_code_to_int receiver_blocked = 312
error_code_to_int conversation_private_cannot_delete = 313
error_code_to_int file_too_large = 400
error_code_to_int file_type_not_allowed = 401
error_code_to_int upload_failed = 402
error_code_to_int download_failed = 403
error_code_to_int file_not_found = 404
error_code_to_int file_expired = 405
error_code_to_int storage_full = 406
error_code_to_int file_corrupted = 407
error_code_to_int checksum_mismatch = 408
error_code_to_int upload_incomplete = 409
error_code_to_int file_locked = 410
error_code_to_int thumbnail_failed = 411
error_code_to_int group_not_found = 500
error_code_to_int group_already_exists = 501
error_code_to_int group_full = 502
error_code_to_int not_group_member = 503
error_code_to_int already_group_member = 504
error_code_to_int not_group_admin = 505
error_code_to_int not_group_owner = 506
error_code_to_int group_disbanded = 507
error_code_to_int invite_not_allowed = 508
error_code_to_int join_not_allowed = 509
error_code_to_int kick_not_allowed = 510
error_code_to_int group_muted = 511
error_code_to_int member_muted = 512
error_code_to_int group_name_invalid = 513
error_code_to_int admin_limit_reached = 514
error_code_to_int owner_cannot_leave = 515
error_code_to_int cannot_kick_admin = 516
error_code_to_int group_members_too_few = 517
error_code_to_int connection_closed = 600
error_code_to_int connection_timeout = 601
error_code_to_int handshake_failed = 602
error_code_to_int protocol_error = 603
error_code_to_int message_too_large = 604
error_code_to_int invalid_frame = 605
error_code_to_int ping_timeout = 606
error_code_to_int too_many_connections = 607
error_code_to_int kick_by_server = 608
error_code_to_int duplicate_login = 609
error_code_to_int upstream_unavailable = 610
error_code_to_int route_not_found = 700
error_code_to_int user_offline = 701
error_code_to_int gate_not_found = 702
error_code_to_int gate_unavailable = 703
error_code_to_int session_not_found = 704
error_code_to_int forward_failed = 705
error_code_to_int broadcast_failed = 706
error_code_to_int db_connection_failed = 800
error_code_to_int db_query_failed = 801
error_code_to_int db_write_failed = 802
error_code_to_int db_transaction_failed = 803
error_code_to_int cache_miss = 804
error_code_to_int cache_write_failed = 805
error_code_to_int redis_connection_failed = 806
error_code_to_int rocksdb_error = 807
error_code_to_int rpc_failed = 900
error_code_to_int rpc_timeout = 901
error_code_to_int rpc_cancelled = 902
error_code_to_int service_not_found = 903
error_code_to_int network_error = 904
error_code_to_int dns_failed = 905
error_code_to_int ssl_error = 906

-- A code that the table does not list is "unknown".
unfoldable pub error_code_to_string : ErrorCode → Text
error_code_to_string ok = codes "success"
error_code_to_string unknown = codes "unknown error"
error_code_to_string invalid_param = codes "invalid parameter"
error_code_to_string internal_error = codes "internal error"
error_code_to_string not_found = codes "not found"
error_code_to_string already_exists = codes "already exists"
error_code_to_string permission_denied = codes "permission denied"
error_code_to_string rate_limited = codes "rate limited"
error_code_to_string service_unavailable = codes "service unavailable"
error_code_to_string timeout = codes "timeout"
error_code_to_string cancelled = codes "cancelled"
error_code_to_string data_corrupted = codes "data corrupted"
error_code_to_string unsupported = codes "unsupported"
error_code_to_string auth_failed = codes "authentication failed"
error_code_to_string token_expired = codes "token expired"
error_code_to_string token_invalid = codes "token invalid"
error_code_to_string user_not_found = codes "user not found"
error_code_to_string password_wrong = codes "password wrong"
error_code_to_string user_already_exists = codes "user already exists"
error_code_to_string username_invalid = codes "username invalid"
error_code_to_string password_too_weak = codes "password too weak"
error_code_to_string account_disabled = codes "account disabled"
error_code_to_string account_locked = codes "account locked"
error_code_to_string email_invalid = codes "email invalid"
error_code_to_string email_already_used = codes "email already used"
error_code_to_string phone_invalid = codes "phone invalid"
error_code_to_string phone_already_used = codes "phone already used"
error_code_to_string verify_code_wrong = codes "verify code wrong"
error_code_to_string verify_code_expired = codes "verify code expired"
error_code_to_string login_elsewhere = codes "login elsewhere"
error_code_to_string session_invalid = codes "session invalid"
error_code_to_string friend_already = codes "already friends"
error_code_to_string friend_not_found = codes "friend not found"
error_code_to_string blocked = codes "blocked by user"
error_code_to_string request_pending = codes "request pending"
error_code_to_string request_not_found = codes "request not found"
error_code_to_string request_expired = codes "request expired"
error_code_to_string self_operation = codes "cannot operate on self"
error_code_to_string friend_limit_reached = codes "friend limit reached"
error_code_to_string block_limit_reached = codes "block limit reached"
error_code_to_string already_blocked = codes "already blocked"
error_code_to_string not_blocked = codes "not blocked"
error_code_to_string msg_not_found = codes "message not found"
error_code_to_string recall_timeout = codes "recall timeout"
error_code_to_string recall_not_allowed = codes "recall not allowed"
error_code_to_string msg_too_long = codes "message too long"
error_code_to_string msg_empty = codes "message empty"
error_code_to_string msg_type_invalid = codes "message type invalid"
error_code_to_string conversation_not_found = codes "conversation not found"
error_code_to_string msg_send_failed = codes "message send failed"
error_code_to_string msg_already_read = codes "message already read"
error_code_to_string offline_msg_limit = codes "offline message limit"
error_code_to_string msg_filtered = codes "message filtered"
error_code_to_string receiver_offline = codes "receiver offline"
error_code_to_string receiver_blocked = codes "receiver blocked"
error_code_to_string conversation_private_cannot_delete =
    codes "private conversation cannot be deleted"
error_code_to_string file_too_large = codes "file too large"
error_code_to_string file_type_not_allowed = codes "file type not allowed"
error_code_to_string upload_failed = codes "upload failed"
error_code_to_string download_failed = codes "download failed"
error_code_to_string file_not_found = codes "file not found"
error_code_to_string file_expired = codes "file expired"
error_code_to_string storage_full = codes "storage full"
error_code_to_string file_corrupted = codes "file corrupted"
error_code_to_string checksum_mismatch = codes "checksum mismatch"
error_code_to_string upload_incomplete = codes "upload incomplete"
error_code_to_string file_locked = codes "file locked"
error_code_to_string thumbnail_failed = codes "thumbnail failed"
error_code_to_string group_not_found = codes "group not found"
error_code_to_string group_already_exists = codes "group already exists"
error_code_to_string group_full = codes "group full"
error_code_to_string not_group_member = codes "not group member"
error_code_to_string already_group_member = codes "already group member"
error_code_to_string not_group_admin = codes "not group admin"
error_code_to_string not_group_owner = codes "not group owner"
error_code_to_string group_disbanded = codes "group disbanded"
error_code_to_string invite_not_allowed = codes "invite not allowed"
error_code_to_string join_not_allowed = codes "join not allowed"
error_code_to_string kick_not_allowed = codes "kick not allowed"
error_code_to_string group_muted = codes "group muted"
error_code_to_string member_muted = codes "member muted"
error_code_to_string group_name_invalid = codes "group name invalid"
error_code_to_string admin_limit_reached = codes "admin limit reached"
error_code_to_string owner_cannot_leave = codes "owner cannot leave"
error_code_to_string cannot_kick_admin = codes "cannot kick admin"
error_code_to_string group_members_too_few = codes "group requires at least 3 members"
error_code_to_string connection_closed = codes "connection closed"
error_code_to_string connection_timeout = codes "connection timeout"
error_code_to_string handshake_failed = codes "handshake failed"
error_code_to_string protocol_error = codes "protocol error"
error_code_to_string message_too_large = codes "message too large"
error_code_to_string invalid_frame = codes "invalid frame"
error_code_to_string ping_timeout = codes "ping timeout"
error_code_to_string too_many_connections = codes "too many connections"
error_code_to_string kick_by_server = codes "kick by server"
error_code_to_string duplicate_login = codes "duplicate login"
error_code_to_string upstream_unavailable = codes "upstream service not configured"
error_code_to_string route_not_found = codes "route not found"
error_code_to_string user_offline = codes "user offline"
error_code_to_string gate_not_found = codes "gate not found"
error_code_to_string gate_unavailable = codes "gate unavailable"
error_code_to_string session_not_found = codes "session not found"
error_code_to_string forward_failed = codes "forward failed"
error_code_to_string broadcast_failed = codes "broadcast failed"
error_code_to_string db_connection_failed = codes "database connection failed"
error_code_to_string db_query_failed = codes "database query failed"
error_code_to_string db_write_failed = codes "database write failed"
error_code_to_string db_transaction_failed = codes "database transaction failed"
error_code_to_string cache_miss = codes "cache miss"
error_code_to_string cache_write_failed = codes "cache write failed"
error_code_to_string redis_connection_failed = codes "redis connection failed"
error_code_to_string rocksdb_error = codes "rocksdb error"
error_code_to_string rpc_failed = codes "rpc failed"
error_code_to_string rpc_timeout = codes "rpc timeout"
error_code_to_string rpc_cancelled = codes "rpc cancelled"
error_code_to_string service_not_found = codes "service not found"
error_code_to_string network_error = codes "network error"
error_code_to_string dns_failed = codes "dns failed"
error_code_to_string ssl_error = codes "ssl error"
error_code_to_string _ = codes "unknown"
