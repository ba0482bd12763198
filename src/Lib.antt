-- ===== src/Lib.antt =====
-- Zinc, a Minecraft server: the byte buffer through which every packet goes, the values that packets carry,
-- the connections that packets are sent over, and the servers that answer them.
--
-- A `ByteBuffer` (inc/type/ByteBuffer.h, src/type/ByteBuffer.cpp) is a queue of bytes with a byte order.
-- Its inner buffer keeps blocks of 4096 bytes and a write and a read cursor. The coding functions write a
-- value as bytes and read it back; larger values are coded by the functions of their parts.
--
-- Common: names that all modules share; tests on numbers, lists by native number, bits and digits.
-- Buffer: `ByteBuffer::InternalByteBuffer`, a record with the blocks and the cursors. View has the
--   well-formedness and what a buffer holds, Writing and Reading have `write` and `read`, PastEnd has reads
--   of more than was written.
-- ByteBuffer: `ByteBuffer`; a member function is an action, from the state to a result and a state, or
--   `none` where the code's behaviour is undefined or it throws. Rules has the rules by which what an
--   action writes and reads follows from its steps, Raw has the functions on bytes.
-- Numeric: `writeNumeric` and `readNumeric`. VarNumeric: `writeVarNumeric` to `readZigZagVarNumeric`.
-- Text: `writeString`, `readString` and `Identifier` (type/Identifier.h, type/Identifier.cpp).
-- Arrays: the templates for arrays, optional values and choices (also inc/type/IDorX.h, inc/type/XorY.h).
-- Vectors: positions, block coordinates, vectors and UUIDs. Teleport: type/TeleportFlags. IdSets:
--   type/IDSet. Sounds: type/SoundEvent. BitSet: type/BitSet, with its functions of `ByteBuffer`.
-- GameTypes: properties and potion effects (type/GameTypes) and light data (type/LightData). Properties
--   has their coding.
-- Nbt: `NBTElement` (inc/type/nbt, src/type/nbt/NBTElement.cpp). Coding and Decoding have `encode` and
--   `decode`, Access the functions on children. Trees has the trees of tagged values that a round trip
--   is about; Parts, Leaves, Headers, Lists and RoundTrip follow the parts of an element up to the tree.
-- Predicates: elements in a buffer (`writeNBTElement`), matchers and block predicates of type/GameTypes.
-- Packets: `ZincPacket` (network/minecraft) and the comparisons of buffers. Copies has what `setData` and
--   `getData` copy.
-- Messenger: `ZincMessengerBridge` (loader), over which plugins and the server send messages. Spec has the
--   queues that it promises, Delivery what becomes of a message. ServerMessenger: `parseMessage` of
--   loader/ZincServerMessenger.cpp, which answers them; Answers has the replies.
-- SrvCtl: `SrvCtlServer` and `SrvCtlConnection` (network/srvctl). Frames has what a handler takes from its
--   input, States which states are reached. A handler gets the input that waits, and returns how much of it
--   is drained and what is sent.
-- Wrappers: `AESWrapper` (util/crypto/AES) and `ZLibUtil` (util/ZLibUtil.cpp); OpenSSL and zlib-ng are
--   parameters with laws.
-- Connection: `ZincConnection` (network/minecraft), the packets of one client: `send` and `read` over what
--   waits in the input. Framing follows a packet through its frame, compression and encryption; Channels has
--   the login plugin channels and the packets whose number the state gives.
-- Server: `ZincServer` (network/minecraft), the clients of a socket each and the counters of them. Counts has
--   what it means that they agree, Kept and Reached the steps of the server, Admission the refusals,
--   Handshakes what a handshake leaves, Logins the login start (Packets and Requests have what a client is
--   then sent), Configured the packets of the configuration.
-- Bans: the bans of `ZincConfig` (ZincConfig.cpp) and the search for one; Kept has what ending a ban leaves.
-- Checksums: util/crypto/CRC32.cpp, and in Serial the shift register that it stands for.
-- Tests: the theorems at concrete inputs.
--
-- A function of the source has its name in snake case (`writeVarNumeric` is `write_var_numeric`), and a
-- field its name without `m_`. A type's operations stand in the module of the type.
--
-- Numbers are natural numbers: an integer of w bits, signed or not, is its bit pattern below 2 ^ w, and
-- wrap-around is written out. A `float` or `double` is its bit pattern; there is no float arithmetic. The
-- host is taken to be little-endian with 64-bit `long` and `size_t`. The loops of the inner buffer
-- recurse on fuel, the number of bytes, which the theorems show to be enough, since every round moves at
-- least one byte. `decode` of an element recurses on fuel too, and the weight of the tree is enough.
--
-- A control connection or a client is one entry of its server's map, and libevent's calls are the steps of a
-- relation, one after the other. `Connection.read` is what `onRead` gets its packets from, and the messenger
-- answers over the bridge.
--
-- Not modelled: the mutexes and threads (one thread at a time), log messages, failures of memory allocation,
-- and the parts of the program that do input and output or call other libraries. Slots, recipes, chat types,
-- chunk data, text components, the text form of elements, the SHA-1 digest, the configuration but for its
-- bans, and some packets of the Minecraft server's `onRead` (the status, the encryption response, cookies and
-- plugin channels) are not modelled; in the steps of that server such a packet leaves the state of its
-- connection, and may change anything else of its client but the address. The tables of the registries are
-- data.
pub mod Common
pub mod Buffer
pub mod ByteBuffer
pub mod Numeric
pub mod VarNumeric
pub mod Text
pub mod Arrays
pub mod Vectors
pub mod Teleport
pub mod IdSets
pub mod Sounds
pub mod BitSet
pub mod Bans
pub mod Checksums
pub mod Connection
pub mod GameTypes
pub mod Messenger
pub mod Nbt
pub mod Packets
pub mod Predicates
pub mod Server
pub mod ServerMessenger
pub mod SrvCtl
pub mod Wrappers
pub mod Tests
