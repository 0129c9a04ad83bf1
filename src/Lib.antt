-- ===== src/Lib.antt =====
-- Anope 1.9.6, IRC services: the core of src/ and include/ modelled and verified.
--
-- Services keep, for an IRC network, registered channels with their access lists, bans that users
-- are checked against, and operators with their privileges. The parts modelled and their files:
--
-- Base (with Tests, Lists, Logic, Bits, Int): tests, lists and bit facts over the native numbers.
-- Text: `Anope::string` of include/anope.h, the case maps of include/hashcomp.h and the character
--   traits and map orders of src/hashcomp.cpp. A text is a list of bytes.
-- Base64: `Anope::B64Encode` and `Anope::B64Decode` of src/base64.cpp.
-- Glob: `Anope::Match` of src/misc.cpp. A position is written as the suffix that begins there. The
--   loop runs on fuel, `rounds`, of the order of the length of the text times the square of that of
--   the mask; `Glob.Total` proves that no call uses it up. A read outside the mask is `undefined`.
-- Cidr: class `cidr` of src/sockets.cpp. `inet_pton` is a parameter.
-- XLines: `XLine` and `XLineManager` of src/operserv.cpp and include/oper.h, over an explicit heap,
--   since the list of a manager and the map by id share the entries. The virtual `SendDel`, `OnMatch`
--   and `OnExpire` are recorded as calls. `Check` uses Glob and Cidr.
-- Access: privileges, access entries and access groups of src/access.cpp and include/access.h.
--   `HasPriv` of an entry, which a module provides, and the event hooks are parameters.
-- ModeLocks: the mode locks of a registered channel, src/regchannel.cpp.
-- ModeStacker: the changes of modes that are gathered and sent together, src/modes.cpp, and when
--   `Channel::SetMode` and `RemoveMode` of src/channels.cpp ask for a change.
-- Tokens: `sepstream` of src/hashcomp.cpp.
-- Dns: the packets of src/dns.cpp. Reads and writes outside a buffer are results of their own. The loop
--   of `UnpackName` runs on rounds, one for each label; pointers can make it endless. `sockaddrs::ntop`
--   is a parameter.
-- Timers: the list of timers of src/timers.cpp. `std::sort` and the virtual `Tick` are parameters; a
--   round for each timer is enough for `TickTimers`.
-- Entries: class `Entry` of src/channels.cpp, the masks of list modes and of akicks; uses Glob, Cidr and
--   Buffers. `inet_pton` and the list modes of modules are parameters.
-- Members: who is on which channel with which status, src/channels.cpp and src/users.cpp. Channel and
--   user share a status object, which stands in a store by its place. A user who quits leaves his
--   channels in a loop, which has a round for each of them.
-- ChanModes: the other modes of a channel with the enforcement of mode locks, src/channels.cpp. Calls
--   are followed to a depth, and two are enough for the modes the theorems are about.
-- Opers: operators and their types, src/opertype.cpp, to a depth of inheritance.
-- RegChannel: the founder, the lists and the levels of a registered channel, src/regchannel.cpp.
-- Numbers: class `NumberList` of src/misc.cpp over `convertTo` of include/services.h. A range is counted
--   through on rounds; a round for each number and one more are enough for a range that ends below
--   4294967295, and none are for one that ends there.
-- Sessions: the sessions of each host, their limits and the exceptions to them, of
--   modules/commands/os_session.cpp; uses Glob and Numbers. Whether the server answers a kill with a
--   QUIT is part of the configuration. A use of a session or a user that was deleted is a result of its
--   own.
-- Settings: the reader of configuration files and `ConfValue`, src/config.cpp, from the bytes of a file
--   on. The characters that are left of a line stand for the position in it. One round more
--   than there are lines is enough for lines that a buffer holds.
-- Users: the maps of users by nick and unique id of src/users.cpp, and the unique ids that src/servers.cpp
--   gives to the own clients, with a round for each id that is tried. What the other parts do when a
--   user comes or goes is in their own models. Users.Modes: the modes of a user, from a text that is
--   formatted already; `opcnt` has 32 bits and wraps, and the calls of modules and of `UpdateHost` are
--   recorded.
-- Times: `dotime` of src/misc.cpp, with `stringify` of include/services.h.
-- Buffers: hexadecimal digits, `normalizeBuffer` and the tests of texts of src/misc.cpp. The loop of
--   `normalizeBuffer` has the length of the text as fuel, as each round reads a byte.
-- Sha256: the hash and the stored passwords of modules/encryption/enc_sha256.cpp.
--
-- Times are natural numbers and do not wrap, but for those of timers, which are signed; ranks and levels are integers; the channel count of an
-- account wraps at 16 bits, the counts of a session and the words of the hash at 32. `tolower` and
-- `isspace` are those of the C locale. Not modelled: the chains of joins, kicks and
-- `chan_set_correct_modes`, the sockets and socket engines, the IRC protocol modules, the directives of
-- the configuration and their validators, the databases and serialization, logging, the commands of
-- the pseudo-clients but for those named above, and the code that is Windows only.
pub mod Base
pub mod Text
pub mod Tokens
pub mod Numbers
pub mod Sessions
pub mod Settings
pub mod Users
pub mod Times
pub mod Timers
pub mod Dns
pub mod Base64
pub mod Glob
pub mod Cidr
pub mod XLines
pub mod Access
pub mod ModeLocks
pub mod Members
pub mod ModeStacker
pub mod ChanModes
pub mod Opers
pub mod Entries
pub mod RegChannel
pub mod Buffers
pub mod Sha256
