-- ===== src/Lib.antt =====
-- worker-log: a FastCGI service that takes the offers an advertising widget has shown, answers with a
-- visitor's cookie, and logs one document for each offer to MongoDB. This library has the program as
-- functions of its inputs, and its theorems.
--
-- How the parts interact. `main` reads the configuration, becomes a daemon through `Server`, and makes
-- a `CgiService`, which starts the threads. They (`CgiService::Serve`) accept requests and hand each of
-- them to `CgiService::ProcessRequest`. It reads the parameters, the body and the cookie of the request,
-- parses the query and the body with `UrlParser`, and answers an AJAX request through `Params` (what
-- the request says), `Core::Process` (the answer), `ClearSilver::Cookie` (the header Set-Cookie) and
-- `Core::ProcessSaveResults` (the log), and any other with the status page of `BaseCore` or with
-- nothing. The counters of src/Config.cpp are shared by `Core`, which counts, and `BaseCore`, which
-- shows them.
--
-- Which file has which part:
--   Base, Base/*       names, lists, texts, dictionaries and decimal numbers that the others share;
--   External/Json      include/json.h (JSON for Modern C++), by its calls: the record `JsonLib` has the
--                      operations and `IsJsonLib` what its documentation says of them;
--   External/Boost     splitting, trimming and the regular expression of Boost, in the same way;
--   UrlParser          src/UrlParser.cpp: `Hex` and `Percent` the escapes as a machine with three states,
--                      `Query` the loop over 64-bit positions with `substr` and its exception,
--                      against a reader of pairs without positions;
--   Params             src/Params.cpp: the chained setters are functions from `Params` to `Params`;
--   Cookie             src/Cookie.cpp: a module for each of its classes; what changes `*this` gives the
--                      new value, `swap` both of them. Times are the record `PosixTime`;
--   Core               src/Core.cpp: `Core/Document` the reads of an offer, which add missing entries to
--                      the JSON and throw on a wrong kind, `Core/Save` the loop with the counters,
--                      `Core/Clock` the date of a document from three readings of the clock;
--   BaseCore           src/BaseCore.cpp: the page, and the rates with their conversions of widths;
--   CgiService         src/CgiService.cpp: `Events` what is printed, logged and finished, `Body` and
--                      `CookieHeader` what is read of a request, `World` the state and what a request
--                      meets, `Request` the handler (`Request/Sent` what of its events reaches the
--                      client, `Request/Replies` the reply that belongs to a request), `Serve` the loop
--                      of a thread, `Database` and `Launch` the constructor, `Threads` the threads on
--                      a counter that they share, `Pool` the threads on one service, with each request as one step, and
--                      `Accepting` the lock under which they take their requests;
--   BoostHelpers       src/BoostHelpers.cpp: the check of a path, against a file system as a state;
--   Config             src/Config.cpp: reading the configuration, with TinyXML as a parameter, in stages
--                      that go on or exit; `Described` has the settings that a document describes;
--   Base64             src/base64.cpp;
--   EBranch, Offer     src/EBranch.cpp and src/Offer.cpp;
--   Log                src/Log.cpp: the stream buffer in front of `syslog`, the functions that share one
--                      buffer, and the size of the process;
--   CpuStat            src/CpuStat.cpp: the use of the processor and of the memory;
--   GeoIpTools         src/GeoIPTools.cpp: where an address is, with the GeoIP library as a parameter;
--   Server             src/Server.cpp: the way to a daemon, with the answers of the system as arguments:
--                      `Signals` what is bound to a signal, `Parent` the parent and the child as a step
--                      relation, `Pid` the pid file;
--   Main               src/main.cpp: the options, and the start of the other parts;
--   Db                 src/DB.cpp: the registry of connections, with its objects in a store;
--   Tests              runs at concrete inputs, with samples of the libraries that meet their laws.
--
-- How state and errors are kept. A `std::string` is a list of bytes (`Bytes`), a `std::map` a `Dict`. An
-- exception is `none`, or a constructor of a type of results where more than one thing can happen. The
-- handler takes the state that requests share (`Service`) and gives the state afterwards, what it did in
-- order (`Event`) and the documents that were written. Machine-width numbers are native numbers whose
-- bits are written out (`% 2 ^ 64`, `% 2 ^ 32`, `% 2 ^ 8`).
--
-- Fuel. The loop of `UrlParser::parse` runs on two more than the length of the text; each round takes a
-- byte at least, and the theorem on it shows that the fuel does not run out. The other loops go along a
-- list, or, as the digits of a number do, run on its value. The two processes of the start, and the
-- threads, are step relations: what is said of them holds in every order of their steps. A step of
-- `Threads` is one load or store, of `Accepting` a call between two others, and of `Pool` a request.
--
-- Not modelled: in the handler, that a long text, such as the query in the report of an exception,
-- runs over the end of the buffer of `Log` (`Log/Messages` has the buffer; an `Event` has the text
-- that is handed over); exceptions of `boost::filesystem::exists`, on paths whose status cannot be
-- read; what the system does with the working directory, the mask of files, the session and the
-- standard streams of a daemon; src/File.cpp, which only reads a file, which the build does not
-- compile, and which uses a member that its header does not have; `Config::minifyhtml`, two regular
-- expressions that nothing applies; what a build with DEBUG does.
pub mod Base
pub mod External
pub mod Base64
pub mod BaseCore
pub mod BoostHelpers
pub mod Config
pub mod Db
pub mod EBranch
pub mod Log
pub mod Offer
pub mod Server
pub mod Main
pub mod CpuStat
pub mod GeoIpTools
pub mod UrlParser
pub mod Cookie
pub mod Params
pub mod Core
pub mod CgiService
mod Tests
