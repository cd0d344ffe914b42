-- ===== src/Tests/Translation.antt =====
-- ServerNAT at concrete packets: a query of a client, its answer, and the end of the client.
use vpn_core.Base.{◌≡◌, refl, subst, some, List, [], ◌∷◌, arith}
use vpn_core.Base.Eq.{nat_eq, pair_eq, list_eq, is_in, add}
use vpn_core.Base.Dict.{lookup, insert, delete, move_to_end}
use vpn_core.Base.Words.{Bytes, write_at, pack_into_u16, unpack_from_u16}
use vpn_core.Base.Text.{Text}
use vpn_core.Base.Result.{ok}
use vpn_core.Packet.{
  IpPacket, init, checksum, get_source, get_destination, set_source, refresh_checksums,
  recalc_ip_checksum, recalc_l4_checksum, pseudo_header, read_port, write_port, write_ip,
}
use vpn_core.Nat.{scan, number_of, open_flow, remember, renew}
use vpn_core.Nat.Server.{
  ServerNat, new, register_client, translate_out, translate_in, l4_out, leave, allocate_port,
}
use vpn_core.Nat.State.{IsPort, IsValid, allocate_port-IsChoice}
use vpn_core.Nat.History.{Call, IsGone, call, calls, history-IsValid, unregister_client-IsGone}
use vpn_core.Nat.Steps.{number_at}
use vpn_core.Nat.Sent.{IsSent}
use vpn_core.Nat.Answers.{IsFrom, IsTo, IsDelivered}
use vpn_core.Nat.Delivery.{translate_in-IsDelivered}
use vpn_core.Packet.Setters.{HasRoom}
use vpn_core.Tests.Datagrams.{quads, query, query_packet, query-HasRoom}

abbrev client : Text
client = 10 ∷ 0 ∷ 0 ∷ 2 ∷ []

abbrev exit : Text
exit = 203 ∷ 0 ∷ 113 ∷ 5 ∷ []

abbrev opening : List Call
opening = Call.register client ∷ Call.ignore 50000 ∷ []

abbrev session : List Call
session =
    Call.register client ∷ Call.send 59999 7 query ∷ Call.answer query ∷ Call.unregister client ∷ []

history-IsValid_example : IsValid (calls quads (new exit (51820 ∷ [])) session)
history-IsValid_example = history-IsValid quads exit (51820 ∷ []) session (omega arith)

abbrev opened : ServerNat
opened = record (new exit (50000 ∷ [])) {
  clients = client ∷ [];
  l4 = record { fwd = (client, []) ∷ []; rev = [] };
  echo = record { fwd = (client, []) ∷ []; rev = [] };
}

opened_run : calls quads (new exit []) opening ≡ opened
unfolding calls call register_client is_in add insert lookup
opened_run = refl

opened-IsValid : IsValid opened
opened-IsValid = subst IsValid opened_run (history-IsValid quads exit [] opening (tt, (tt, tt)))

unregister_client-IsGone_example : IsGone opened opened-IsValid client
unregister_client-IsGone_example = unregister_client-IsGone opened opened-IsValid client

allocate_port-IsChoice_example :
    IsPort
      (59999 ∷ [])
      17
      (((17, 50000), (client, 53)) ∷ [])
      (allocate_port 59999 (59999 ∷ []) 17 (((17, 50000), (client, 53)) ∷ []))
allocate_port-IsChoice_example =
    allocate_port-IsChoice 59999 (59999 ∷ []) 17 (((17, 50000), (client, 53)) ∷ []) (omega arith)
      (omega arith)

allocate_run : allocate_port 59999 (59999 ∷ []) 17 (((17, 50000), (client, 53)) ∷ []) ≡ ok 50001
unfolding allocate_port scan is_in lookup
allocate_run = refl

query-IsFrom : IsFrom quads opened query query_packet client 12345
unfolding init get_source read_port unpack_from_u16 is_in
query-IsFrom = record { bytes = omega arith; parses = refl; source = refl; client = refl }

-- The query on its way: from 203.0.113.5:50001, free to be cut, with its checksums.
abbrev sent : Bytes
sent =
    69 ∷ 0 ∷ 0 ∷ 30 ∷ 0 ∷ 1 ∷ 0 ∷ 0 ∷ 64 ∷ 17 ∷ 46 ∷ 185 ∷ 203 ∷ 0 ∷ 113 ∷ 5 ∷ 8 ∷ 8 ∷ 8 ∷ 8 ∷ 195
    ∷ 81 ∷ 0 ∷ 53 ∷ 0 ∷ 10 ∷ 135 ∷ 212 ∷ 104 ∷ 105 ∷ []

sent_run : (translate_out quads opened 50000 0 query).1 ≡ ok (some sent)
unfolding translate_out init get_source read_port unpack_from_u16 is_in l4_out number_of open_flow
    remember lookup insert allocate_port scan leave set_source write_ip write_port refresh_checksums
    recalc_ip_checksum recalc_l4_checksum pseudo_header checksum write_at pack_into_u16
sent_run = refl

abbrev sent_packet : IpPacket
sent_packet = record { buf = sent; ihl = 20; protocol = 17; l4 = 20 }

sent_parses : init sent ≡ ok sent_packet
unfolding init
sent_parses = refl

sent_source : get_source quads sent_packet ≡ ok (exit, some 50001)
unfolding get_source read_port unpack_from_u16
sent_source = refl

-- The answer from 8.8.8.8:53.
abbrev reply : Bytes
reply =
    69 ∷ 0 ∷ 0 ∷ 30 ∷ 0 ∷ 9 ∷ 0 ∷ 0 ∷ 60 ∷ 17 ∷ 0 ∷ 0 ∷ 8 ∷ 8 ∷ 8 ∷ 8 ∷ 203 ∷ 0 ∷ 113 ∷ 5 ∷ 0 ∷ 53
    ∷ 195 ∷ 81 ∷ 0 ∷ 10 ∷ 0 ∷ 0 ∷ 111 ∷ 107 ∷ []

abbrev reply_packet : IpPacket
reply_packet = record { buf = reply; ihl = 20; protocol = 17; l4 = 20 }

abbrev after : ServerNat
after = (translate_out quads opened 50000 0 query).0

reply-IsTo : IsTo quads after reply reply_packet 17 50001
unfolding init get_destination get_source read_port unpack_from_u16 is_in translate_out l4_out
reply-IsTo = record {
  bytes = omega arith;
  parses = refl;
  protocol_is = refl;
  to = exit;
  destination = refl;
  heeded = refl;
}

reply-HasRoom : HasRoom reply_packet
reply-HasRoom = omega arith

translate_in-IsDelivered_example :
    IsSent quads query_packet exit 50001 (translate_out quads opened 50000 0 query).1
    × IsDelivered quads reply_packet
        (get_source quads query_packet)
        (translate_in quads after reply).1
translate_in-IsDelivered_example =
    translate_in-IsDelivered quads opened 50000 0 query query_packet client 12345 sent exit
      opened-IsValid (omega arith) (omega arith) query-IsFrom query-HasRoom refl sent_run reply
      reply_packet 50001 sent_packet exit sent_parses sent_source reply-IsTo reply-HasRoom

-- Two packets of one flow have the port that the first one got.
abbrev twice : List Call
twice = Call.register client ∷ Call.send 50000 7 query ∷ Call.send 51000 7 query ∷ []

twice_run : number_at (calls quads (new exit []) twice).l4 client (17, 12345) ≡ some 50000
unfolding calls call register_client is_in add insert lookup delete move_to_end translate_out init
    get_source read_port unpack_from_u16 l4_out number_of open_flow remember renew allocate_port
    scan
twice_run = refl
