-- ===== src/Lib.antt =====
-- The library models ashttpd, an HTTP server that serves the files of a prepared web root.
--
-- A connection (http_conn.c) receives bytes into a buffer (http_buf.c), and http_parse_incremental
-- (include/http-parse.h) watches them for the blank line that ends a head. http_req (http_req.c)
-- then runs http_decode_buf (http_parse.c) over the head, which hands each header that a table lists
-- to a function, and fills a request. The URI is normalised by nads_normalize (normalize.c) before it
-- is looked up in the web root (webroot.c), whose index holds a trie that trie.c builds
-- for mkroot.c, the program that makes a web root of a directory. The file is sent
-- by an I/O model (io_sync.c, io_sendfile.c) on the event loop (nbio.c). Byte vectors (vec.c) are passed
-- throughout, and memory comes from pools (hgang.c, strpool.c).
--
-- Vec: vec.c. A `struct ro_vec` is `RoVec`, the bytes it covers, or NULL.
-- HttpBuf: http_buf.c and include/ashttpd-buf.h. Pointers are offsets from b_base, and a failed
--   assertion is `none`.
-- HttpParse: http_parse.c. The loop of http_decode_buf is `scan` over the bytes, with one function for
--   each label of its computed goto; the functions of the control blocks act on a state of any type.
-- Incremental: http_parse_incremental of include/http-parse.h.
-- HttpReq: http_req.c. HttpResp: http_resp.c.
-- Normalize: normalize.c. Each step is a function from a string to an `Outcome`: the string it leaves,
--   an error with what was written so far, or a fault, which is an access outside of an array.
-- HttpConn: http_conn.c. A connection with the counters and the calls that go out of it is a
--   `World`; the functions are steps on it, and `none` is a failed assertion or an abort. What send,
--   recv and the allocations return are arguments.
--   HttpConn/Header: http_write_hdr and http_write. HttpConn/Texts and HttpConn/Reply: the fixed
--   responses. HttpConn/Print: the writers of a response, print_etag and print_time. HttpConn/Get:
--   handle_get; what it uses of the other parts is the record `Deps`. HttpConn/Serve: handle_request
--   and http_read. The others hold theorems: Life on the states, Transfer on sending, Reading on
--   receiving, Head and Found on the response to a GET, Answers on the other responses, Numbers on
--   printed numbers, Ranges on the end of a response.
-- Webroot: webroot.c, webroot-common.h and include/webroot-format.h. The arrays of the mapped index are
--   lists. Webroot/Mapped reads them from the bytes of the file. Webroot/Edges says what an index promises, and what its edges spell; Search, Complete and
--   Find are on the search, and Answer on handle_get with a web root.
-- Sendfile: io_sendfile.c. Sync: io_sync.c. They are steps on the `World` of HttpConn, with what the
--   system returns as arguments. Os: the loops of os.c over a list of the system's answers.
-- Fobuf: fobuf.c. `fd_write` is a function of the number of the call, with the law that Os/Writes proves.
-- Hgang: hgang.c. A pointer is a number; the sizes of pointers and headers are those of 64 bits.
-- Nbio: the lists of nbio.c. Lists and Steps hold the lemmas, and Reach the relation of all steps.
-- Strpool: strpool.c; addresses do not wrap around.
-- Trie: do_radix and construct_radix of trie.c. Trie/Layout: the layout of the edges and their writing.
--   Trie/Groups is on the loop of do_radix, Trie/Spells and Trie/Sound on what the edges spell; Sorted,
--   Cut, Nodes and Fits on sorted strings, Layout/Starts, Order, Place and Each on the array, and
--   Index and Lookup on the search in it.
-- Mkroot: the objects of mkroot.c. Mkroot/Scan: the walk over a tree of directories, with Objects, Made
--   and Walk on the references between objects, Names, Uris and Once on the URIs, and Sorted on their
--   order. Mkroot/Image: numbers, offsets and the file that is written; Parts and Sections are on its
--   sections, Numbers on the numbers of objects, Opened on webroot_open of its header, Served on the
--   files that its index names, Bytes and Read on the structures that are read from it, and Looked on the
--   search in it. What libmagic, SHA-1 and the system give
--   is a parameter, and what qsort makes of the URIs a relation.
-- Tests: the theorems at concrete inputs.
--
-- All loops over bytes are structural recursion. The binary search of dispatch_hdr runs on fuel, one
-- more than the number of entries; the bound is part of the proof that it finds what a linear search
-- finds. The port of a Host header is searched from the end by recursion on the length.
--
-- The memory behind the NUL of a string that is searched has at least seven bytes more where a theorem says
-- so, since memcmp may read eight bytes of it.
--
-- A byte is a number; the lemmas that need it assume that it is below 256. Numbers of 64 bits are
-- printed with a fuel of 20 digits, as many as the largest has. Lengths are not bounded: the buffers
-- hold a few KB, so no length reaches the limits of `int`.
--
-- trie_query runs on fuel, 257 for each edge and two more: children stand behind their parent and a
-- group has at most 255 edges; that it is enough is part of the theorems. do_radix runs on the number of
-- bytes and strings that are left, which each call and each round of its loop brings down, and
-- do_layout_bfs on the number of edges. The loops of
-- os.c run over the list of the system's answers.
--
-- Not modelled: the virtual hosts, whose lookup is a parameter of HttpConn/Get, and the crit-bit tree
-- behind them, a copy of a published one; the plugins of the event loop, and the walk of nbio_pump over
-- a list that its callbacks change; the asynchronous transfer of files; the options of mkroot and its
-- failures of allocation and writing; the program that checks a web root; the red-black tree, which
-- nothing uses; SHA-1, a copy of a published one; and the load generator.
mod Prelude
pub mod Vec
pub mod HttpBuf
pub mod HttpParse
pub mod HttpReq
pub mod HttpResp
pub mod Normalize
pub mod Incremental
pub mod HttpConn
pub mod Webroot
pub mod Sendfile
pub mod Sync
pub mod Os
pub mod Fobuf
pub mod Nbio
pub mod Hgang
pub mod Mkroot
pub mod Strpool
pub mod Trie
mod Tests
