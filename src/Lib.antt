-- ===== src/Lib.antt =====
-- A model of ungula-lib-net, the networking library for ESP32 nodes, and what holds of it.
--
-- A node is a client of one coordinator. The client finds its coordinator by scanning the WiFi
-- channels for beacons (PairingClient), the coordinator keeps a table of two clients
-- (PairingCoordinator), and both keep what they know in preferences. ConnectionManager decides for
-- the client when the connection is lost and how to search for the coordinator again. It asks a
-- session provider to probe and to search; EspNowSessionProvider does so over ESP-NOW. Beside
-- these, a node has an HTTP server with WebSocket broadcasts, an HTTP client, an NTP client, and a
-- WiFi access point or station, whose credentials are stored in preferences.
--
--   Base            lists and machine words: a uint8_t or uint32_t is a natural number, and its
--                   wrap-around is written out (u8, u32, sub32)
--   Comm            src/comm/transport_types.h, src/comm/i_transport.h: MacAddress, and ITransport
--                   as a record of operations on a transport's state; EspNow is EspNowTransport, and
--                   Header is message_header.h
--   Preferences     IPreferences of the library ungula-lib, as a record of operations on a store's
--                   state; Preferences.Laws states what the program relies on
--   Pairing         src/pairing and src/connection/reconnect_messages.h: Messages has the packed
--                   structs, Client is PairingClient, Coordinator is PairingCoordinator, and
--                   Handshake, Discovery and Encounter join the two
--   Connection      src/connection: Config is ConnectionConfig, Session is ISessionProvider, Manager
--                   is ConnectionManager and EspNow is EspNowSessionProvider
--   Http            src/http: Httpd is the part of ESP-IDF that the server calls, Server is
--                   HttpServer, Request is HttpRequest with the parsing of queries, Response is what
--                   a handler sends, and Client is the HTTP client, with Esp and Curl for its two
--                   builds
--   Wifi            src/wifi: Config is WifiConfigStore, Driver is the part of ESP-IDF that brings
--                   WiFi up, AccessPoint is wifi_ap.cpp, Station is wifi_sta.cpp (its Start has
--                   sta_init and espnow_init), Scan is its sta_scan, Addresses is about the
--                   addresses that both show, and Sharing joins the access point and the station
--   Ntp             src/ntp: the NTP client, with Desktop for the stub of desktop builds
--   Strings         strncmp and strstr, as src/http and src/wifi use them
--   Text            the texts that src/wifi prints: MAC and IPv4 addresses
--   Calendar        gmtime_r and strftime, as src/ntp uses them
--   Fixtures        a concrete radio and store; the Tests modules try the theorems out on them
--
-- A class is a record of its fields, and a method is a function of the record that returns the new
-- one, under the method's name (storePairedClient is store_paired_client). References to the
-- transport and the preferences are fields: the object's methods are the only ones to use them
-- between two calls. A callback of the application is a flag and a list of the calls made of it, or
-- a function. A message is the list of its bytes; a struct is read from it by parse and written by
-- encode. The time of a call is the argument `now`, as in the source.
--
-- What a program may do with an object over time is a list of events, and a run takes them in turn:
-- Connection.Manager.Events has the calls of a connection manager and the answers that reach its
-- provider, Pairing.Client.Events the calls of a pairing client and the messages that come in.
--
-- The program's loops go over lists or count down an index. Only Calendar takes fuel: the search for
-- a year takes as much as there are days, and each year has more than one, the search for a month
-- takes twelve, and the digits of an int ten. The transport, the preferences, the session provider,
-- the calls of ESP-IDF and of libcurl are parameters; the laws IsTransport, IsPreferences,
-- IsSessionProvider, IsHttpd, IsEspHttp, IsCurlHttp, IsRadio, IsEsp, IsDriver, IsScanner and IsSntp are
-- hypotheses where a theorem needs them, and Fixtures and the Tests modules show that they can hold.
--
-- httpd itself, which decides the requests that reach generic_handler and ws_handler, is not part of
-- the model: Response.serve is a run of generic_handler on a request that httpd hands over.
--
-- Not modelled: log output and the names of states that it prints, waits that only pass time, and
-- the platform shims (src/platform).
pub mod Base
pub mod Comm
pub mod Preferences
pub mod Pairing
pub mod Connection
pub mod Http
pub mod Wifi
pub mod Calendar
pub mod Ntp
pub mod Strings
pub mod Text
pub mod Fixtures
