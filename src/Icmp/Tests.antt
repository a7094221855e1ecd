-- ===== src/Icmp/Tests.antt =====
-- Runs of the echo messages and the tracker, and their theorems at concrete inputs.
use chitanda.Base.{
  length, drop, All, ℕ, ◌%◌, ◌<◌, ◌≡◌, refl, inr, true, false, none, some, List, [], ◌∷◌, arith,
}
use chitanda.Base.Bytes.{IsByte, put_be, uint_be}
use chitanda.Icmp.Checksum.{sum_words, fold, checksum}
use chitanda.Icmp.Checksum.Sum.{words}
use chitanda.Icmp.Message.{
  put_checksum, put_token, checksum_field, token_field, build_echo_request, build_echo_reply,
  parse_echo, validate_echo_request, rewrite_token, strip_ip_header,
}
use chitanda.Icmp.Message.Laws.{parse_echo-build}
use chitanda.Icmp.Message.Rewrite.{rewrite_token-checksum, rewrite_token-words}
use chitanda.Icmp.Tracker.{prepare_request, echo_reply_in, restore_reply}
use chitanda.Icmp.Tracker.Once.{prepare, restore, calls, restore_reply_once}
use chitanda.Icmp.Tracker.Table.{IsTable, nil-IsTable, tracker-IsTable}
use chitanda.Icmp.Tracker.Laws.{restore_reply-prepare_request}

abbrev ping : List ℕ
ping = 8 ∷ 0 ∷ 246 ∷ 251 ∷ 1 ∷ 2 ∷ 1 ∷ 1 ∷ 255 ∷ []

built_ping : build_echo_request 258 257 (255 ∷ []) false ≡ ping
unfolding build_echo_request put_checksum checksum sum_words fold uint_be put_be
built_ping = refl

ping-IsByte : All IsByte ping
ping-IsByte = ground arith

parse_echo-build_example :
    let request = build_echo_request 258 257 (255 ∷ []) true in
    let reply = build_echo_reply 258 257 (255 ∷ []) true in
    (parse_echo request
      ≡ inr (record {
        kind = 128;
        code = 0;
        checksum = checksum_field request;
        id = 258;
        seq = 257;
        content = 255 ∷ [];
      }))
    × (parse_echo reply
        ≡ inr (record {
          kind = 129;
          code = 0;
          checksum = checksum_field reply;
          id = 258;
          seq = 257;
          content = 255 ∷ [];
        }))
parse_echo-build_example = parse_echo-build 258 257 (255 ∷ []) true (omega arith) (omega arith)

-- An IPv4 header of 20 bytes before an echo reply.
abbrev raw_pong : List ℕ
raw_pong =
    69 ∷ 0 ∷ 0 ∷ 29 ∷ 0 ∷ 0 ∷ 0 ∷ 0 ∷ 64 ∷ 1 ∷ 0 ∷ 0 ∷ 10 ∷ 0 ∷ 0 ∷ 1 ∷ 10 ∷ 0 ∷ 0 ∷ 2 ∷ 0 ∷ 0 ∷ 0
    ∷ 0 ∷ 0 ∷ 0 ∷ 0 ∷ 7 ∷ 9 ∷ []

stripped_pong : strip_ip_header raw_pong false ≡ inr (0 ∷ 0 ∷ 0 ∷ 0 ∷ 0 ∷ 0 ∷ 0 ∷ 7 ∷ 9 ∷ [])
unfolding strip_ip_header
stripped_pong = refl

rewrite_token-checksum_example : checksum (rewrite_token ping 7 false) ≡ 0
rewrite_token-checksum_example =
    rewrite_token-checksum ping 7 (omega arith) (omega arith) ping-IsByte

ping_checksum : 0 < checksum_field ping
unfolding uint_be
ping_checksum = omega arith

rewrite_token-words_example : words (rewrite_token ping 7 true) % 65535 ≡ words ping % 65535
rewrite_token-words_example =
    rewrite_token-words ping 7 (omega arith) ping-IsByte (omega arith) ping_checksum

tracker-IsTable_example :
    IsTable (prepare_request [] 6 100 ping false).0
    × IsTable (restore_reply [] 100 raw_pong false).0
tracker-IsTable_example = tracker-IsTable [] 6 100 ping raw_pong false nil-IsTable

held_pong : echo_reply_in raw_pong false ≡ some (0 ∷ 0 ∷ 0 ∷ 0 ∷ 0 ∷ 0 ∷ 0 ∷ 7 ∷ 9 ∷ [])
unfolding echo_reply_in strip_ip_header
held_pong = refl

restore_reply_once_example :
    (restore_reply
      (calls
        (restore_reply (prepare_request [] 6 100 ping false).0 101 raw_pong false).0
        (prepare 7 102 ping false ∷ restore 103 raw_pong false ∷ []))
      104
      raw_pong
      false).1
    ≡ none
unfolding uint_be
restore_reply_once_example =
    restore_reply_once (prepare_request [] 6 100 ping false).0 101 104 raw_pong
      (0 ∷ 0 ∷ 0 ∷ 0 ∷ 0 ∷ 0 ∷ 0 ∷ 7 ∷ 9 ∷ []) false
      (prepare 7 102 ping false ∷ restore 103 raw_pong false ∷ []) held_pong (omega arith, (tt, tt))

prepared_ping :
    (prepare_request [] 6 100 ping false).2 ≡ inr (8 ∷ 0 ∷ 248 ∷ 247 ∷ 0 ∷ 0 ∷ 0 ∷ 7 ∷ 255 ∷ [])
unfolding prepare_request validate_echo_request rewrite_token put_token put_checksum checksum
    sum_words fold uint_be put_be
prepared_ping = refl

restore_reply-prepare_request_example :
    (out : List ℕ) × ((restore_reply (prepare_request [] 6 100 ping false).0 159 raw_pong false).1
      ≡ some out)
    × (token_field out ≡ token_field ping)
    × (drop 8 out ≡ 9 ∷ [])
    × (length out ≡ 9)
restore_reply-prepare_request_example =
    restore_reply-prepare_request [] 6 100 159 ping (8 ∷ 0 ∷ 248 ∷ 247 ∷ 0 ∷ 0 ∷ 0 ∷ 7 ∷ 255 ∷ [])
      raw_pong (0 ∷ 0 ∷ 0 ∷ 0 ∷ 0 ∷ 0 ∷ 0 ∷ 7 ∷ 9 ∷ []) false ping-IsByte prepared_ping
      stripped_pong refl refl refl (omega arith)
