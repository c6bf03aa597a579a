-- ===== src/Tcp/Tests.antt =====
-- Packets that `parseTCP` is tried on.
use caelo.Base.{ℕ, List, []}
use caelo.Tcp.Headers.{Sent, segment_bytes, Quad}

abbrev syn : Sent
syn = record { source_port = 40000; target_port = 443; seq = 4294967295; ack = 0; flags = 2 }

abbrev syn_segment : List ℕ
syn_segment = segment_bytes syn 80 255 255 0 0 0 0 []

abbrev home : Quad
home = record { a = 10; b = 0; c = 0; d = 2 }

abbrev server : Quad
server = record { a = 93; b = 184; c = 216; d = 34 }
