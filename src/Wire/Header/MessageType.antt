-- ===== src/Wire/Header/MessageType.antt =====
-- pkg/mqtt/header.go: the types of packets.
use yodi.Base.{ℕ}

abbrev pub connect : ℕ
connect = 1

abbrev pub connect_ack : ℕ
connect_ack = 2

abbrev pub publish : ℕ
publish = 3

abbrev pub publish_ack : ℕ
publish_ack = 4

abbrev pub subscribe : ℕ
subscribe = 8

abbrev pub subscribe_ack : ℕ
subscribe_ack = 9

abbrev pub unsubscribe : ℕ
unsubscribe = 10

abbrev pub unsubscribe_ack : ℕ
unsubscribe_ack = 11

abbrev pub ping_request : ℕ
ping_request = 12

abbrev pub ping_response : ℕ
ping_response = 13

abbrev pub disconnect : ℕ
disconnect = 14
