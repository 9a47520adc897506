-- ===== src/Lib.antt =====
-- A model of NFF-Go NAT, a network address translator on the nff-go framework, with the theorems that
-- make its translation correct.
--
-- The program. A configuration, a JSON file that nat/config.go reads, gives pairs of network ports, one
-- private and one public; nat.go starts everything. For each pair nff-go runs two handlers,
-- PrivateToPublicTranslation and PublicToPrivateTranslation (nat/translation.go). A handler takes a
-- packet and says whether it is sent on, dropped, or given to the KNI interface of the kernel. It
-- answers ARP, neighbour discovery and echo requests itself (nat/arp.go, nat/neigh.go, nat/icmp.go),
-- hands DHCP answers to the clients (nat/dhcp.go, nat/dhcp6.go), and otherwise looks the packet up in
-- the tables of the pair. A packet from the private side without an entry takes a public port
-- (nat/portalloc.go). FINs, RSTs and a timeout end a connection, static rules never end. A loop asks
-- for the addresses that ports lack (nat/dhcp.go). Through gRPC a client (client/client.go) has the
-- server (nat/grpc.go) turn dumps on and off and change the addresses and the forwarding rules of
-- running ports.
--
-- The files.
--   Base, Net: Booleans, lists, results, slices; addresses, endpoints (the source's Tuple and Tuple6)
--     and lookup tables (sync.Map), as functions with store and delete.
--   Packets, Nff: the headers that nff-go locates, and a record of the functions of nff-go and gopacket
--     that the code calls, a parameter of the model with three laws on byte order.
--   Text: what the program uses of Go's packages strings, strconv and net. Numerals, Ip and Parts, with
--     Lengths and Printed for what holds of them.
--   Config: the constants and records of nat/config.go. Subnet: checkAddrWithingSubnet and the String
--     methods of subnets. Printing: StringIPv4Int and the String methods of nat/util.go and
--     nat/portalloc.go; ReadBack reads printed texts with the readers of the configuration.
--   Unmarshal: the UnmarshalJSON methods of nat/config.go. Reading: ReadConfig; Readable describes it
--     in one piece, and Accepts compares the two.
--   PortAlloc: nat/portalloc.go. Its children hold the search for a port, what a write and
--     deleteOldConnection do to a pair, and allocNewPort.
--   Connections: allocateNewEgressConnection, checkTCPTermination and getAddrFromTuple of
--     nat/translation.go. Links and WellFormed hold the invariant of a pair: each private entry leads
--     to a public one that leads back, unless it stands for the KNI interface, families agree, ports
--     lie in their portmaps, and the portmaps of the translated protocols have portEnd entries.
--   Forwarding: checkPortForwarding and enableStaticPortForward of nat/config.go.
--   Control: ChangePortForwarding of nat/grpc.go and convertForwardedPort of nat/util.go, which change
--     the rules of a running pair. Replacing and Keeps are about every rule and port at once, Panics
--     about the ports that lie outside of a portmap.
--   Kernel: setLinkIPv4KNIAddress, setLinkIPv6KNIAddress and bringInterfaceUp of nat/util.go, as the
--     calls of the kernel that they make.
--   Server: getPortAndPairByID of nat/config.go, ControlDump and the whole ChangePortForwarding of
--     nat/grpc.go; Server.Address is ChangeInterfaceAddress, with convertSubnet of nat/util.go. Lookup,
--     AddressReply, AddressReply6, AddressChanges and RuleChanges are about these.
--   Client: the Set methods of client/client.go, and its main. Client.Messages follows a rule from the
--     command line to the server.
--   Setup: the state that InitFlows makes. Flows: its flow graph, as the list of the calls of nff-go's
--     package flow, and Flows.Routes where every flow ends.
--   Program: DumpControlArray.Set and the decisions of main in nat.go, and CheckHWOffloading.
--   Machine: what handlers run in. A handler is a function from a state, the pair with a log of what
--     was sent and traced, to a result and a state, or a panic. Machine.Posts has the rules by which
--     postconditions are put together, Machine.Partial those that allow a panic, Machine.Ports how a port's other fields
--     relate to its pair's invariant.
--   Checksums: nat/cksum.go and the rewriting of ports in nat/util.go. Neighbours: nat/arp.go and
--     nat/neigh.go. Icmp: nat/icmp.go. Dhcp and Dhcp6: the clients. Wire and OptionCodec: the DHCPv6
--     options' encoders and decoders in nat/dhcp6.go, over lists of bytes; OptionCodec.Runs has the
--     decoders' loops without a count of rounds. RequestLoop: a round of sendDHCPRequests in
--     nat/dhcp.go; its children follow the IPv4 and the IPv6 part, and Acquisition the answers.
--   Translation: the two handlers, Ingress for packets from the public side and Egress for those from
--     the private side. Checksummed and Rewrite say which endpoints a rewritten packet has, Local what
--     happens before the lookup; Receiving and Delivery, and Sending, Departures and Masquerade, are
--     about the two handlers as a whole, and Cache about what they store of a sender.
--   System: a pair in the running program, what the packets and requests that its Step has make of it,
--     and every state that they reach.
--   Samples, Tests, PacketTests, SettingsTests and TextTests: concrete data, and the theorems applied
--     to it.
--
-- Conventions. Numbers are natural numbers, `% 2 ^ w` where the source converts to fewer bits. An
-- address in a table is in host byte order, one in a header in network byte order. A Go error is a
-- value, and a panic a constructor of Outcome. Times are nanoseconds, and a handler reads the clock
-- once: now - lastused stops at zero, where a clock that goes backwards would give a negative time,
-- which is as little a timeout. An entry that the source changes through a pointer is read and written
-- back. A text is the list of its bytes. What the kernel answers, and whether a call to it succeeds, is
-- a parameter, and so is what json.Unmarshal gives.
--
-- Bounds. The search for a port runs over the distance to the end of the range, so it needs no fuel.
-- The option decoders have the length of the data for fuel: an option takes four bytes and a label one,
-- so it is enough. The count of the bits of a mask has 33 rounds for IPv4 and 129 for IPv6, the limits
-- of the source's loops. A number has at most as many digits as its value and one.
--
-- Not modelled: the JSON decoder, the flag package, gRPC and netlink themselves; the trace files
-- (startTrace, closePortTraces, CloseAllDumpFiles) and the printing of warnings; profiling, signals and
-- the start of nff-go in nat.go; the String method of forwarding rules, which prints through the
-- library's reflection; updatecfg/updatecfg.pb.go, which is generated. Handlers are atomic: the source
-- locks a pair for writes of its tables and portmaps, but not for its reads, and what two threads do in
-- between is not considered. A slice of received data ends at its length here, where Go allows reading
-- up to its capacity.
pub mod Base
pub mod Net
pub mod Packets
pub mod Nff
pub mod Checksums
pub mod Config
pub mod PortAlloc
pub mod Subnet
pub mod Text
pub mod Connections
pub mod Forwarding
pub mod Machine
pub mod Neighbours
pub mod Icmp
pub mod Dhcp
pub mod Wire
pub mod OptionCodec
pub mod Dhcp6
pub mod Translation
pub mod Control
pub mod Kernel
pub mod Unmarshal
pub mod Reading
pub mod Server
pub mod Client
pub mod Program
pub mod RequestLoop
pub mod Flows
pub mod Printing
pub mod Setup
pub mod System
mod Samples
mod Tests
mod PacketTests
mod SettingsTests
mod TextTests
