-- ===== src/Lib.antt =====
-- The core of the VPN: what the client, the server and the packets between them compute.
--
-- A client captures IPv4 datagrams, translates their addresses, cuts each into DATA packets,
-- shifts the bytes and sends them over TCP. The server reads the frames, joins the pieces, charges
-- the quota, translates the source to its own address and sends the datagram to the Internet; the
-- answers come back the other way.
--
-- Files and the code they model (paths from the root of the repository):
--   Base        lists, dictionaries in insertion order, byte strings, `struct`'s big-endian fields,
--               texts, integers and exceptions as values.
--   Crypto      Server/Crypto.py: `Cesar.encode`, `Cesar.decode` (copies in Client/ and
--               Loadbalancer/).
--   VpnPacket   Server/VPNPacket.py and Client/VPNPacket.py: `_build_packet`,
--               `_parse_header_and_payload`; VpnPacket/Server and VpnPacket/Client have the
--               builders and the parser of each side, under the source's names.
--   Frame       Server/VPNServer.py and Client/VPNClient.py: `_FrameReader`, `_send_frame`,
--               `_fragment`, and the reassembly that opens `_handle_data`.
--   Packet      Server/Packet.py: `IPPacket` (a copy in Client/). A method takes the packet and
--               returns it changed.
--   Nat         Server/NAT.py: `ServerNAT`. The file itself has what the port tables and the ICMP
--               tables do alike; Nat/Server has the methods. `random.randrange` is a parameter of
--               the methods that draw.
--   ClientNat   Client/NAT.py: `ClientNAT`.
--   Database    Server/Database.py: `UserDB`, its tables as values. Database/Rules has the firewall's
--               rules and the traffic log, with `VPNServer.is_blocked` of Server/VPNServer.py.
--   Dns         Server/DNSCache.py: the parser of DNS messages, and `DNSCache`. Dns/Records says what
--               bytes a record has.
--   Server      Server/VPNServer.py: `VPNServer` with its pool, its registry and its quotas;
--               Server/Session has the datagrams and the quota of `ClientHandler`, Server/Run the
--               handlers of its packets, Server/Events its `run` from packet to packet and the
--               gateway's callback, Server/Portal the calls of the portal.
--   VpnClient   Client/VPNClient.py: `VPNClient`, from the handshake to the datagrams;
--               VpnClient/Register has `register`, and VpnClient/Uplink a datagram's way to the
--               server. An attempt to establish a session is given as what the network does in it,
--               and so is a registration.
--   Tests       the theorems at concrete inputs, and runs of the definitions.
--
-- Conventions. A byte is a number below 256, which `IsBytes` says where a theorem needs it. A call
-- that may raise returns a `Result`. `self` is passed and returned. Python's libraries are
-- parameters: UTF-8, JSON and SHA-256 are the record `Codec`, `socket.inet_ntoa` and `inet_aton`
-- the record `Inet`; their laws are the documented round trips. `str.strip` and `str.lower` are the
-- record `Strings`. A `ClientHandler` is known by a number that stands for the object.
--
-- Fuel. `fold_carry` has the sum as its fuel, and each round that goes on makes the sum smaller.
-- `fragment_loop` has as many rounds as `range` gives. `fill_until` follows the list of what the
-- socket meets; it ends as `waiting` when the list does. A read of the client's handshake, which a
-- time-out never ends, is given by what it brings, which may be nothing: then the attempt is
-- `pending`. `scan` has as many rounds as there are candidates, `assign_loop` as many as there are
-- free addresses, and `name_loop` the 128 steps that the code allows.
--
-- Not modelled: sockets, threads and locks (a method is one step, and so is a turn of `run` for one
-- packet), timers (the end of a window is the end of a connection), the waits of the token bucket,
-- the limits of `json.loads` on digits and nested values, the Windows adapter (Client/Tunnel.py),
-- the web pages and the command line, the HTTP proxies, and the parts of the program that no file
-- above names.
pub mod Base
pub mod Crypto
pub mod VpnPacket
pub mod Frame
pub mod Packet
pub mod Nat
pub mod ClientNat
pub mod Database
pub mod Dns
pub mod Server
pub mod VpnClient
mod Tests
