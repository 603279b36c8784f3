-- ===== src/Lib.antt =====
-- Models and theorems for the Bluetooth Low Energy stack of this repository: the data and the operations
-- of its Linux backend, from the advertising packets and the L2CAP connection up to the ATT server, and
-- the types that all backends share.
--
-- The parts and how they interact. A connection (linux/hci/conn.go) cuts what the ATT layer writes into
-- ACL packets, for which it takes buffers from a pool (linux/hci/buffer.go) that all connections share;
-- what arrives it puts together and hands on by channel: to the ATT server, to the signalling channel
-- (linux/hci/signal.go), which shares one slot for connection updates with the application, or to the
-- security manager (linux/hci/smp.go). The ATT server (linux/att/server.go) looks attributes up in a
-- database (linux/att/db.go) generated from a profile (profile.go), and calls the handlers of the
-- application through a response writer (handler.go).
--
-- Files and what they model:
--   Base and its children: Boolean tests, lists measured by native numbers, byte slices, Go's panic.
--   Uuid: uuid.go.  Profile: profile.go.  Params: conn.go.
--   Adv: linux/adv/packet.go and linux/adv/const.go; Adv/Readers the readers of a received packet.
--   Att/Pdu: the accessors of linux/att/att_gen.go and newErrorResponse. Att/Handler: handler.go.
--   Att/Db: linux/att/attr.go and the lookups of linux/att/db.go; Att/Generate: NewDB and what it calls.
--   Att/Server: linux/att/server.go. State: the server and newCCCD; Call: handleATT; Scan: the loops
--     over a range of attributes; Reads and Writes: the handlers of the requests; Dispatch:
--     handleRequest; Session: NewServer and Loop.
--   Att/Client: Read, ReadBlob and ExchangeMTU of linux/att/client.go, and the long read of
--     linux/gatt/client.go. Bearer: sendReq and resolveAbandoned; Requests: the other requests and
--     commands; Inbox: Loop and handleRequest.
--   Hci/Acl: Read, Write, writePDU and recombine of linux/hci/conn.go. Hci/Pool: linux/hci/buffer.go.
--   Hci/Update: the update slot of UpdateParams, deliverConnUpdate and the peer's request.
--   Hci/Signal: linux/hci/signal.go. Hci/Smp: linux/hci/smp.go.
--   Hci/Report: the advertising reports of linux/hci/hci.go, with linux/hci/evt/evt.go and linux/hci/adv.go.
--   Hci/Cmd: linux/hci/cmd/cmd.go and cmd_gen.go, and how send of linux/hci/hci.go fills its buffer;
--     Requests lists the commands.
--   Hci/Flow: Send, send and the handlers of Command Complete and Command Status of linux/hci/hci.go.
--   Hci/Dispatch: poolableEvtPkt, handlePkt, handleEvt and handleLEMeta of linux/hci/hci.go.
--   Tests: runs on concrete inputs.
-- The other files hold what is proved of these.
--
-- Functions keep the names of the source in lower case. A uint8 or uint16 is a native number; where the
-- code converts or increments one, the wrap-around is written out. A Go slice is a list, a nil slice is
-- `none`, a map is an association list. Code that may panic returns `Go`; an index or slice out of range
-- is `panic`, and the capacity of a slice is its length unless a definition says otherwise. Buffers stand
-- for their size and what is written at their front. Stateful code takes the state and returns it.
--
-- The application's handlers are a parameter: a handler sees all calls before its own and answers with
-- a script of uses of its response writer. The radio and the controller are parameters too: what becomes
-- of each fragment, of each command, and which arm of a select is taken are arguments.
--
-- Loops over attributes, packets and services are structural. The readers of advertising packets run on
-- fuel of one more than the bytes of the packet, since each round takes a byte or more. The loop of
-- handleSignal takes its fuel as an argument: a round for each command and a last one.
-- The search of the report history runs on fuel of more than twice its places, which is enough except
-- at its last place, where no fuel is. The long read's fuel is an argument too: one more than the bytes of the value is enough.
--
-- Not modelled: the connections in the HCI layer, GAP, the rest of the GATT client,
-- notifications and indications as they are sent, the request side of signalling, the sockets, the
-- Darwin backend, which is glue to another package, and logging.
pub mod Base
pub mod Uuid
pub mod Adv
pub mod Params
pub mod Profile
pub mod Att
pub mod Hci
pub mod Tests
