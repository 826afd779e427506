-- ===== src/Lib.antt =====
-- retro-aim-server (open-oscar-server): a server for the AIM and ICQ instant messengers. Clients
-- send FLAP frames over TCP; a frame carries a SNAC, a header and a body that a reflection-based
-- codec reads and writes; a service of the SNAC's food group handles it on the user's session and
-- the stores. An account has one Session, with an instance for each connection; the session manager
-- stores the sessions by name and relays SNACs to the queues of their instances. A session limits
-- the rate of its SNACs by class. The buddy list is a feedbag, a list of items that FeedbagList
-- edits. The web API polls a queue of events per session. Old ICQ clients come by UDP, and have a
-- session manager of their own before the common one.
--
-- Which file models what (paths from the repository's root):
--   Wire/Codec/*         wire/encode.go, wire/decode.go. A Go type is a `Ty`, its values are `El`,
--                        a parsed struct tag is an `OscarTag`. `marshal` and `unmarshal` are the
--                        functions of those names; a reader takes a buffer and gives a value or an
--                        error with the bytes left.
--   Wire/Tlv             wire/tlv.go: TLV and TLVList.
--   Wire/Flap            wire/frames.go: the frame types and FlapClient. A client is its counter
--                        and the bytes written; each operation is told if the write succeeds.
--   Wire/RateLimit       wire/rate_limit.go: the classes, the table and CheckRateLimit, in int32
--                        arithmetic (Prelude/Int).
--   Wire/Roast           wire/user.go: password roasting.
--   Wire/FeedbagItem     FeedbagItem of wire/snacs.go.
--   State/RateLimits     state/session.go: EvaluateRateLimit, ObserveRateChanges, SetRateClasses,
--                        SubscribeRateLimits. Instants are nanoseconds.
--   State/FeedbagList    state/feedbag_list.go: all operations of FeedbagList, on a heap of items
--                        that the lists of pointers share; NewIdentScreenName of state/user.go.
--   State/Session        state/session.go: SessionInstance. Session/Lifecycle: the instances of a
--                        Session, RunOnce and CloseSession; Session/Interleaving: its critical
--                        sections, and the callbacks that a close runs outside of them, as steps of
--                        goroutines, with the state of a close in `System`; Session/Once,
--                        Session/Ordered and Session/Teardown: what holds in every interleaving;
--                        Session/Status: idle, away, invisible;
--                        Session/NotifyTxn: the notify transactions; Session/Relay: how
--                        state/session_manager.go sends a message to one session's instances.
--   State/SessionManager state/session_manager.go: InMemorySessionManager. AddSession is cut where
--                        it waits; SessionManager/Capacity has the calls as steps.
--   State/Cookie         state/cookie.go: HMACCookieBaker and ServerCookie, and the cookie of a login
--                        in foodgroup/auth.go.
--   State/Handle         state/user.go: ValidateAIMHandle.
--   Wire/BuddyPrefs      wire/buddy_prefs.go: the preference bits, BuddyPref and SetBuddyPref.
--   IcqLegacy/Crypt      server/icq_legacy/wire_legacy_crypt.go: V3 to V5 check codes, encryption.
--   IcqLegacy/Status     the status maps of server/icq_legacy/service.go.
--   IcqLegacy/Sessions   server/icq_legacy/session.go: LegacySessionManager.
--   WebApi/Events        server/webapi/events.go: EventQueue, and a client's Fetch as steps,
--                        where a Push may append after a Close that came after its test.
--   Prelude              shared names; lists measured by native numbers; bytes and integers.
--
-- Bounds and fuel. A byte is a number below 256. `read_buffer` and `read_until_eof` run on as much
-- fuel as the buffer has bytes, which is enough where every element takes a byte; where one takes
-- none the Go loop does not end, and the model gives the error `stuck`. genID makes 65535 rounds,
-- and generateInstanceNum 255, which is what their loops make. uint16, uint32, uint64 and int32 wrap
-- as in Go.
--
-- Objects that Go shares by pointer (instances, sessions, feedbag items) are named by their place
-- in a heap. What sync.Mutex makes one critical section is one step; Go's maps keep the order of
-- insertion, which is one of the orders that Go may choose.
--
-- Parameters: `rand_int` and the random arguments of the check codes (math/rand), `to_lower`
-- (strings.ToLower), `format_uint` (strconv), `hmac_sha256` (crypto/hmac), which is to give 32 bytes,
-- the decoding of runes, unicode.IsLetter and unicode.IsDigit.
--
-- Not modelled: the other services of foodgroup, the servers and their network I/O, SQL, MD5,
-- parseOSCARTag, warning levels, profiles and chat rooms, and the packets of the old ICQ protocols.
-- The callbacks of a session's closing are only counted. A failed marshal keeps no partial output,
-- since every caller discards it. Aliasing of the slices inside a TLV list is not modelled: lists
-- are values.
pub mod Prelude
pub mod Wire
pub mod State
pub mod IcqLegacy
pub mod WebApi
