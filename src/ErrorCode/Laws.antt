-- ===== src/ErrorCode/Laws.antt =====
-- The numbers tell the codes apart; two codes have no description of their own.
use mathlib.Core.Option.{some-injective}
use swift_chat_system.Common.{
  ℕ, ◌≡◌, refl, sym, ap, ◌∙◌, Bool, true, false, Option, none, some, if◌then◌else◌, ◌==◌,
}
use swift_chat_system.Common.Text.{codes, text_eq}
use swift_chat_system.ErrorCode.{ErrorCode, error_code_to_int, error_code_to_string}

-- The code of a number, read from the enumeration.
code_of : ℕ → Option ErrorCode
code_of n =
    if n == 0
    then some ErrorCode.ok
    else if n == 1
    then some ErrorCode.unknown
    else if n == 2
    then some ErrorCode.invalid_param
    else if n == 3
    then some ErrorCode.internal_error
    else if n == 4
    then some ErrorCode.not_found
    else if n == 5
    then some ErrorCode.already_exists
    else if n == 6
    then some ErrorCode.permission_denied
    else if n == 7
    then some ErrorCode.rate_limited
    else if n == 8
    then some ErrorCode.service_unavailable
    else if n == 9
    then some ErrorCode.timeout
    else if n == 10
    then some ErrorCode.cancelled
    else if n == 11
    then some ErrorCode.data_corrupted
    else if n == 12
    then some ErrorCode.unsupported
    else if n == 100
    then some ErrorCode.auth_failed
    else if n == 101
    then some ErrorCode.token_expired
    else if n == 102
    then some ErrorCode.token_invalid
    else if n == 103
    then some ErrorCode.user_not_found
    else if n == 104
    then some ErrorCode.password_wrong
    else if n == 105
    then some ErrorCode.user_already_exists
    else if n == 106
    then some ErrorCode.username_invalid
    else if n == 107
    then some ErrorCode.password_too_weak
    else if n == 108
    then some ErrorCode.account_disabled
    else if n == 109
    then some ErrorCode.account_locked
    else if n == 110
    then some ErrorCode.email_invalid
    else if n == 111
    then some ErrorCode.email_already_used
    else if n == 112
    then some ErrorCode.phone_invalid
    else if n == 113
    then some ErrorCode.phone_already_used
    else if n == 114
    then some ErrorCode.verify_code_wrong
    else if n == 115
    then some ErrorCode.verify_code_expired
    else if n == 116
    then some ErrorCode.login_elsewhere
    else if n == 117
    then some ErrorCode.session_invalid
    else if n == 200
    then some ErrorCode.friend_already
    else if n == 201
    then some ErrorCode.friend_not_found
    else if n == 202
    then some ErrorCode.blocked
    else if n == 203
    then some ErrorCode.request_pending
    else if n == 204
    then some ErrorCode.request_not_found
    else if n == 205
    then some ErrorCode.request_expired
    else if n == 206
    then some ErrorCode.self_operation
    else if n == 207
    then some ErrorCode.friend_limit_reached
    else if n == 208
    then some ErrorCode.block_limit_reached
    else if n == 209
    then some ErrorCode.already_blocked
    else if n == 210
    then some ErrorCode.not_blocked
    else if n == 211
    then some ErrorCode.friend_group_default
    else if n == 212
    then some ErrorCode.friend_group_not_found
    else if n == 300
    then some ErrorCode.msg_not_found
    else if n == 301
    then some ErrorCode.recall_timeout
    else if n == 302
    then some ErrorCode.recall_not_allowed
    else if n == 303
    then some ErrorCode.msg_too_long
    else if n == 304
    then some ErrorCode.msg_empty
    else if n == 305
    then some ErrorCode.msg_type_invalid
    else if n == 306
    then some ErrorCode.conversation_not_found
    else if n == 307
    then some ErrorCode.msg_send_failed
    else if n == 308
    then some ErrorCode.msg_already_read
    else if n == 309
    then some ErrorCode.offline_msg_limit
    else if n == 310
    then some ErrorCode.msg_filtered
    else if n == 311
    then some ErrorCode.receiver_offline
    else if n == 312
    then some ErrorCode.receiver_blocked
    else if n == 313
    then some ErrorCode.conversation_private_cannot_delete
    else if n == 400
    then some ErrorCode.file_too_large
    else if n == 401
    then some ErrorCode.file_type_not_allowed
    else if n == 402
    then some ErrorCode.upload_failed
    else if n == 403
    then some ErrorCode.download_failed
    else if n == 404
    then some ErrorCode.file_not_found
    else if n == 405
    then some ErrorCode.file_expired
    else if n == 406
    then some ErrorCode.storage_full
    else if n == 407
    then some ErrorCode.file_corrupted
    else if n == 408
    then some ErrorCode.checksum_mismatch
    else if n == 409
    then some ErrorCode.upload_incomplete
    else if n == 410
    then some ErrorCode.file_locked
    else if n == 411
    then some ErrorCode.thumbnail_failed
    else if n == 500
    then some ErrorCode.group_not_found
    else if n == 501
    then some ErrorCode.group_already_exists
    else if n == 502
    then some ErrorCode.group_full
    else if n == 503
    then some ErrorCode.not_group_member
    else if n == 504
    then some ErrorCode.already_group_member
    else if n == 505
    then some ErrorCode.not_group_admin
    else if n == 506
    then some ErrorCode.not_group_owner
    else if n == 507
    then some ErrorCode.group_disbanded
    else if n == 508
    then some ErrorCode.invite_not_allowed
    else if n == 509
    then some ErrorCode.join_not_allowed
    else if n == 510
    then some ErrorCode.kick_not_allowed
    else if n == 511
    then some ErrorCode.group_muted
    else if n == 512
    then some ErrorCode.member_muted
    else if n == 513
    then some ErrorCode.group_name_invalid
    else if n == 514
    then some ErrorCode.admin_limit_reached
    else if n == 515
    then some ErrorCode.owner_cannot_leave
    else if n == 516
    then some ErrorCode.cannot_kick_admin
    else if n == 517
    then some ErrorCode.group_members_too_few
    else if n == 600
    then some ErrorCode.connection_closed
    else if n == 601
    then some ErrorCode.connection_timeout
    else if n == 602
    then some ErrorCode.handshake_failed
    else if n == 603
    then some ErrorCode.protocol_error
    else if n == 604
    then some ErrorCode.message_too_large
    else if n == 605
    then some ErrorCode.invalid_frame
    else if n == 606
    then some ErrorCode.ping_timeout
    else if n == 607
    then some ErrorCode.too_many_connections
    else if n == 608
    then some ErrorCode.kick_by_server
    else if n == 609
    then some ErrorCode.duplicate_login
    else if n == 610
    then some ErrorCode.upstream_unavailable
    else if n == 700
    then some ErrorCode.route_not_found
    else if n == 701
    then some ErrorCode.user_offline
    else if n == 702
    then some ErrorCode.gate_not_found
    else if n == 703
    then some ErrorCode.gate_unavailable
    else if n == 704
    then some ErrorCode.session_not_found
    else if n == 705
    then some ErrorCode.forward_failed
    else if n == 706
    then some ErrorCode.broadcast_failed
    else if n == 800
    then some ErrorCode.db_connection_failed
    else if n == 801
    then some ErrorCode.db_query_failed
    else if n == 802
    then some ErrorCode.db_write_failed
    else if n == 803
    then some ErrorCode.db_transaction_failed
    else if n == 804
    then some ErrorCode.cache_miss
    else if n == 805
    then some ErrorCode.cache_write_failed
    else if n == 806
    then some ErrorCode.redis_connection_failed
    else if n == 807
    then some ErrorCode.rocksdb_error
    else if n == 900
    then some ErrorCode.rpc_failed
    else if n == 901
    then some ErrorCode.rpc_timeout
    else if n == 902
    then some ErrorCode.rpc_cancelled
    else if n == 903
    then some ErrorCode.service_not_found
    else if n == 904
    then some ErrorCode.network_error
    else if n == 905
    then some ErrorCode.dns_failed
    else if n == 906
    then some ErrorCode.ssl_error
    else none

code_of-error_code_to_int : (c : ErrorCode) → code_of (error_code_to_int c) ≡ some c
unfolding code_of error_code_to_int
code_of-error_code_to_int ErrorCode.ok = refl
code_of-error_code_to_int _ = refl

-- Two codes with the same number are the same code.
error_code_to_int_injective : (c d : ErrorCode) → error_code_to_int c ≡ error_code_to_int d → c ≡ d
error_code_to_int_injective c d e =
    some-injective _ _
      (sym (code_of-error_code_to_int c) ∙ ap code_of e ∙ code_of-error_code_to_int d)

abbrev is_unlisted : ErrorCode → Bool
is_unlisted ErrorCode.friend_group_default = true
is_unlisted ErrorCode.friend_group_not_found = true
is_unlisted _ = false

-- The description of a code is "unknown" for the two codes of friend groups, and for no other.
error_code_to_string_unknown :
    (c : ErrorCode) → text_eq (error_code_to_string c) (codes "unknown") ≡ is_unlisted c
unfolding error_code_to_string text_eq
error_code_to_string_unknown ErrorCode.ok = refl
error_code_to_string_unknown _ = refl
