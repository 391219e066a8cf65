-- ===== src/Cluster/MessageFlag.antt =====
-- The bits of a message's flag word, `MessageFlag::MessageFlagEnum` of cluster.h.
use lhcluster.Common.{ℕ}

abbrev pub broker : ℕ
broker = 0x8000000000000000

abbrev pub asynchronous : ℕ
asynchronous = 0x1

abbrev pub receipt_on_receive : ℕ
receipt_on_receive = 0x2

abbrev pub receipt_on_send : ℕ
receipt_on_send = 0x4

abbrev pub notify_on_death : ℕ
notify_on_death = 0x8

abbrev pub retry_on_death : ℕ
retry_on_death = 0x10

abbrev pub allow_redirect : ℕ
allow_redirect = 0x20

abbrev pub notify_on_redirect : ℕ
notify_on_redirect = 0x40
