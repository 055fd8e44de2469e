-- ===== src/Lib.antt =====
-- GNU MyServer, an HTTP server: the data structures and the parts that carry its own logic.
--
-- Base: the shared names, Boolean tests, lists measured by native numbers, masks of bits.
--
-- HashMap models myserver/src/base/hash_map/hash_map.cpp and its header, the table on which the
-- server's caches and managers stand.
--   HashMap.Types, Hash, Chain, Table, Resize, Methods and Iterator hold the definitions: the record
--   HashMap has the fields of the class, with `buckets` for `data` and `stamps` for `map`. A list is
--   live if its stamp is not below `offset`; `clear` makes every list stale by counting `offset` up.
--   The four specialisations of the template are one model over the class Key of the key types. The
--   type `float` is the parameter Float, of which nothing is assumed: growing and shrinking are right
--   whatever the comparison of load factors says.
--   HashMap.Models has the relation between a table and the finite map it stands for: the vectors
--   have 2 ^ power entries, the mask has `power` ones, 4 <= power <= 30, each entry is in the list of
--   its hash, each key is there once, and `load` counts the entries of the live lists. HashMap.Grow,
--   Increase, Shrink, Decrease and Spread carry the loops of increaseSize and decreaseSize.
--   HashMap.Refine, Laws, Steps, Walk, RemoveAt and Create have the operations against the finite map.
--   Loops over the capacity are structural; the loop that counts the power of a capacity has the
--   capacity as fuel, more than its number of digits, and the loop from begin to end has `size`.
--   `0x1 << power` is 2 ^ power, since the power stays at or below 30: a table with 2 ^ 31 lists
--   would overflow the int, and is excluded by a hypothesis. A read outside a vector, which C++
--   leaves undefined, gives an empty list or a zero stamp; in a well-formed table there is none.
--   In the theorems on `clear` the counter `offset` keeps its wrap-around at 2 ^ 32.
--
-- Scheduler models myserver/src/connections_scheduler/connections_scheduler.cpp.
--   Scheduler.Types has the fields of class ConnectionsScheduler: the array `ready` with the current
--   class, the count of the semaphore, the table of connections by socket handle, which is a HashMap,
--   and the connections by address. Scheduler.Queues has the push of addReadyConnectionImpl and the
--   loop of getConnection, Scheduler.Operations the methods. getConnection is two steps, before and
--   after the semaphore, and addReadyConnectionImpl is two, the push under readyMutex and the unlock of
--   the semaphore, since other threads may run between them; the mutexes make each of the others one
--   step. Scheduler.Runs has the sequences of steps, Turns, Cases and Calls what one call
--   of getConnection takes, Logs and Order what every run keeps, Alive the table of connections.
--   The loop of getConnection makes three rounds, one for each class. The timeouts of libevent, the
--   dispatcher and the listeners are not modelled: `newData` and the unlocking after a time-out are
--   steps that may come at any time.
--
-- Text models the parts of myserver/src/base/string/stringutils.cpp on hexadecimal numbers, escapes,
--   blanks and line ends. A C string is the list of its bytes before the terminating 0, an int that
--   may be -1 is an integer. hexToInt counts in a u_long of 64 bits and returns an int of 32 bits.
--   The loops are structural; those with a limit have it as the number of rounds left.
--
-- BitVec models myserver/src/base/bitvec/bitvec.cpp and its header: a vector of words of 64 bits, and
--   the searches ffs and find for a bit that is set. The rounds of their loops are the words.
--
-- Range models the test InRange of myserver/src/conf/vhost/ip.cpp on the arrays of four octets, which
--   are lists.
--
-- Post models myserver/src/protocol/http/http_data_read.cpp, and the sending of chunks in
--   myserver/src/protocol/http/http_data_handler.cpp.
--   Post.Streams has the interface of class Stream (myserver/include/filter/stream.h), with the laws of
--   one that takes all it is given, and what the network has for each call of Socket::recv: bytes, of
--   which a call takes as many as it asks for, nothing, or an error. An exception that the socket or a
--   stream throws leaves the functions, and is not modelled; lengths are below 2 ^ 31.
--   Post.Reader has readContiguousPrimitivePostData, Post.Chunked readChunkedPostData, with a function
--   for each loop and each part of a loop's body, Post.Writer appendDataToHTTPChannel, and Post.Body
--   readPostData from the fields of the request on. The loop over the line of a chunk's size recurs on
--   the room in its buffer; the others have fuel. Each round takes a byte at least, so fuel above the
--   number of bytes that come is enough, which Post.Ends, BodyLaws and Received prove.
--   Post.Flow and Smooth have what one read takes, Lines, Data and Chunks the parts of a chunk, Digits
--   the text of a size, RoundTrip and Sender the way from the writer to the reader, BodyStored,
--   BodyBound, Received and Refused the results of readPostData.
--
-- Filters models class FiltersChain of myserver/src/filter/filters_chain.cpp. Filters and streams are
--   numbers, their parents a function, and their virtual methods an interface. Filters.Chain has the
--   operations, Linked, Moves and Runs the links between the filters in every run. The lists of filters
--   are walked by structural recursion.
--
-- FilesCache models CachedFileFactory and the references of CachedFileBuffer, in
--   myserver/src/base/files_cache. The table of records is the finite map that a HashMap stands for,
--   as a list; a record with its buffer is one entry. Each call is one step. The float tests on the use
--   of the cache are arguments, so that the theorems hold whatever they say. FilesCache.Cache has the
--   operations, Sums the sums over the records, Sound, Closed and Runs what every run keeps, Served what
--   open does with a record that it finds.
--
-- MemBuf models class MemBuf of myserver/src/base/mem_buff/mem_buff.cpp and its header. `new char[n]` is
--   the parameter `allocate`, of which the theorems assume the length only. Sizes are below 2 ^ 64.
--   MemBuf.Buffer has the operations, Room the growth of the memory, Added what addBuffer adds, and Hex
--   the functions hex and hexToData.
--
-- Url models class Url of myserver/src/protocol/url.cpp. A position is an Option, with `none` for npos,
--   and texts are shorter than 2 ^ 63, so that a count that wraps reaches the end of the text.
--   Url.Parser has parse and getNumFields, Find the searches, Parts and Whole what parse makes of the
--   text of a URL.
--
-- Text.Secure has myserver_strlcpy and myserver_strlcat of myserver/src/base/string/securestr.cpp, the
--   fast variants, which are those compiled; SecureLaws has the texts they leave.
--
-- Text.Decimal has `atoi` of the C library, which the post data and the URL use.
--
-- Not modelled: the dispatch of the protocols, the other handlers, the configuration and the wrappers
-- of system calls, which do input and output or call libraries; sending through filters that modify
-- the data, the names of filters, the contents of the files in the cache, and of MemBuf the hashes,
-- the numbers as text, and the search for a buffer.
pub mod Base
pub mod HashMap
pub mod Scheduler
pub mod Text
pub mod BitVec
pub mod Range
pub mod Post
pub mod Filters
pub mod FilesCache
pub mod MemBuf
pub mod Url
